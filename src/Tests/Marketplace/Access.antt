-- ===== src/Tests/Marketplace/Access.antt =====
-- The theorems on statuses, products and the verification of access tokens, at concrete inputs.
use service_oriented_hw.Common.{
  ◌≢◌, ℕ, ◌≡◌, refl, true, false, none, some, length, arith, ◌==◌, if◌then◌else◌,
}
use service_oriented_hw.Common.Int.{pos}
use service_oriented_hw.Marketplace.Domain.{
  Product, OrderStatus, created, payment_pending, paid, canceled, UserClaims, user, seller,
  forbidden,
}
use service_oriented_hw.Marketplace.Domain.Status.{
  can_transition_to, Moves, one, further, status_never_returns, cancellable,
}
use service_oriented_hw.Marketplace.Session.{
  Session, Result, ok, err, next_call, ◌>>=◌, query, exec, returning,
}
use service_oriented_hw.Marketplace.Repository.Tx.{at_once, finish}
use service_oriented_hw.Marketplace.Products.{
  ProductUpdate, get_by_id, update, update_row, written_row, merge, to_update, delete, delete_row,
  archive_row,
}
use service_oriented_hw.Marketplace.Products.Laws.{
  update_without_stock, user_changes_any_product, foreign_seller_forbidden,
}
use service_oriented_hw.Marketplace.UserClient.{
  Network, response, timed_out, do_validate, verify_from, verify_from_verdict, is_decisive,
}
use service_oriented_hw.Common.Table.{find_by, modify_by}
use service_oriented_hw.Marketplace.Repository.Orders.{product_key, order_key, belongs_to}
use service_oriented_hw.Marketplace.Orders.Usecase.{
  get_by_id as find_order_of, may_touch, cancel, update as update_order,
}
use service_oriented_hw.Marketplace.Orders.Liveness.{cancel_succeeds}
use service_oriented_hw.Common.{keep_if}
use service_oriented_hw.Marketplace.Orders.Access.{stranger_forbidden}
use service_oriented_hw.Tests.Marketplace.{
  order_code, first_id, first_session, first_order, four_teas, tea, calm, opening, thousandths,
  buyer,
}

paid_from_created : Moves created paid
unfolding can_transition_to
paid_from_created = further (one {t = payment_pending} refl) refl

status_never_returns_example : (created ≢ paid) × ((u : OrderStatus) → Moves paid u → created ≢ u)
status_never_returns_example = status_never_returns created paid paid_from_created

-- A request that changes the name only.
abbrev rename : ProductUpdate ℕ
rename = record {
  name = some "green tea";
  description = none;
  price = none;
  stock = none;
  category = none;
  status = none;
}

abbrev tea_seller : UserClaims
tea_seller = record { user_id = 50; role = seller }

abbrev other_seller : UserClaims
other_seller = record { user_id = 51; role = seller }

product_code : Unit {0}
unfolding at_once finish get_by_id update update_row merge to_update delete delete_row ◌>>=◌ query
    exec returning
product_code = tt

abbrev renamed : Result (Product ℕ) × Session ℕ
renamed = update 1 tea_seller (to_update rename) calm opening

abbrev green_tea : Product ℕ
green_tea = elim renamed.0 [ ok p ↦ p | err e ↦ tea ]

renamed_ok : renamed ≡ (ok green_tea, renamed.1)
unfolding product_code
renamed_ok = refl

green_tea_name : green_tea.name ≡ "green tea"
unfolding product_code
green_tea_name = refl

update_without_stock_example : green_tea.stock ≡ pos 0
update_without_stock_example =
    update_without_stock 1 tea_seller rename calm opening renamed.1 green_tea refl renamed_ok

abbrev plain_user : UserClaims
plain_user = record { user_id = 60; role = user }

user_changes_any_product_example :
    ((update 1 plain_user (to_update rename) calm opening).0
      ≡ ok (written_row (merge tea (to_update rename)) calm.tx_time tea))
    × ((update 1 plain_user (to_update rename) calm opening).1.db.products
        ≡ modify_by product_key 1
            (written_row (merge tea (to_update rename)) calm.tx_time)
            opening.db.products)
    × ((delete 1 plain_user calm opening).0 ≡ ok tt)
    × ((delete 1 plain_user calm opening).1.db.products
        ≡ modify_by product_key 1 (archive_row calm.tx_time) opening.db.products)
user_changes_any_product_example =
    user_changes_any_product 1 plain_user (to_update rename) tea calm opening refl (ground arith)
      refl refl refl refl

foreign_seller_forbidden_example :
    (update 1 other_seller (to_update rename) calm opening ≡ (err forbidden, next_call opening))
    × (delete 1 other_seller calm opening ≡ (err forbidden, next_call opening))
foreign_seller_forbidden_example =
    foreign_seller_forbidden 1 other_seller (to_update rename) tea calm opening refl refl
      (ground arith) refl

-- The first call passes its deadline, the second is answered.
abbrev pub slow_start : Network
slow_start = record {
  reply = λ n. if n == 0 then timed_out else response 200 (some buyer) "";
  interrupted = λ n. none;
}

abbrev second_reply : Result UserClaims
second_reply = (do_validate (slow_start.reply 1)).0

second_reply_ok : second_reply ≡ ok buyer
unfolding do_validate
second_reply_ok = refl

soft_then_decisive :
    (is_decisive (do_validate (slow_start.reply 0)).0 ≡ false) × (is_decisive second_reply ≡ true)
unfolding do_validate
soft_then_decisive = (refl, refl)

verify_from_verdict_example :
    ((verify_from slow_start 1 0).0 ≡ second_reply) × (length (verify_from slow_start 1 0).1 ≡ 2)
verify_from_verdict_example =
    verify_from_verdict slow_start 1 0 1 1 (omega arith) refl (soft_then_decisive.0, refl, tt)
      soft_then_decisive.1

abbrev someone : UserClaims
someone = record { user_id = 61; role = user }

first_order_row : find_by order_key first_id first_session.db.orders ≡ some first_order
unfolding order_code
first_order_row = refl

first_owner : first_order.user_id ≡ 60
unfolding order_code
first_owner = refl

owner-ne-someone : ◌≢◌ {A = ℕ} 60 61
owner-ne-someone = ground arith

first-ne-someone : first_order.user_id ≢ 61
first-ne-someone = rw first_owner owner-ne-someone

stranger_forbidden_example :
    ((find_order_of first_id someone calm first_session).0 ≡ err forbidden)
    × ((cancel first_id someone calm first_session).0 ≡ err forbidden)
    × ((cancel first_id someone calm first_session).1.db ≡ first_session.db)
    × ((update_order (pos 1) first_id someone four_teas calm first_session).0 ≡ err forbidden)
    × ((update_order (pos 1) first_id someone four_teas calm first_session).1.db ≡ first_session.db)
stranger_forbidden_example =
    stranger_forbidden (pos 1) first_id someone four_teas first_order calm first_session
      (ground arith) first-ne-someone first_order_row (λ n. refl)

first_order_buyer : may_touch buyer first_order.user_id ≡ true
unfolding order_code
first_order_buyer = refl

first_order_live : cancellable first_order.status ≡ true
unfolding order_code
first_order_live = refl

cancel_succeeds_example :
    (cancel first_id buyer calm first_session).0
    ≡ ok (record first_order {
      status = canceled;
      updated_at = pos 1_000_000_000_000;
      items = keep_if (belongs_to first_id) first_session.db.order_items;
    })
cancel_succeeds_example =
    cancel_succeeds calm (λ n. refl) first_id buyer first_order first_session refl first_order_row
      first_order_buyer first_order_live
