-- ===== src/Marketplace/Orders/Usecase.antt =====
-- `OrderUseCase` of usecases/order.go. The bodies of the transactions are named apart from the
-- methods, which run them by `WithTx`.
use service_oriented_hw.Common.{
  Bool, true, false, not, ◌||◌, Option, none, some, List, [], ◌∷◌, ◌++◌, map, String, ◌==◌,
  if◌then◌else◌,
}
use service_oriented_hw.Common.Int.{ℤ, pos, ltb_ℤ, leb_ℤ}
use service_oriented_hw.Common.Float.{Float64}
use service_oriented_hw.Marketplace.Domain.{
  Uuid, ProductStatus, active, PromoCode, OrderItem, Order, OrderItemRequest, UserClaims, Role,
  admin, created, create_order, update_order, forbidden, product_inactive, insufficient_stock,
  active_order_exists, order_limit_exceeded, promo_invalid, promo_min_amount, invalid_transition,
}
use service_oriented_hw.Marketplace.Domain.Status.{same_status, cancellable}
use service_oriented_hw.Marketplace.Session.{M, ok, err, ◌>>=◌, ◌>>◌, pure, fail_if, read_clock}
use service_oriented_hw.Marketplace.Repository.Tx.{with_tx}
use service_oriented_hw.Marketplace.Repository.Orders.{
  has_active_order, rate_limit_check, lock_product, decrease_stock, increase_stock, lock_promo,
  lock_promo_by_id, increment_promo_uses, decrement_promo_uses, insert_order, insert_order_items,
  insert_user_op, get_order_for_update, get_order_items, delete_order_items, update_order_tx,
  cancel_order_tx, get_by_id as find_order,
}
use service_oriented_hw.Marketplace.Orders.Discount.{calc_discount}
use text.Mathlib.Text.{◌==◌ as same_text}

abbrev pub is_admin : Role → Bool
is_admin admin = true
is_admin _ = false

-- `claims.Role != RoleAdmin && order.UserID != claims.UserID`, negated
abbrev pub may_touch : UserClaims → Uuid → Bool
may_touch claims owner = is_admin claims.role || owner == claims.user_id

abbrev pub is_on_sale : ProductStatus → Bool
is_on_sale active = true
is_on_sale _ = false

module _ {V : Type 0} where
  unfoldable pub get_by_id : Uuid → UserClaims → M V (Order V)
  get_by_id id claims = do
    order ← find_order id
    fail_if (not (may_touch claims order.user_id)) forbidden
    pure order

  -- The loop that returns the items' quantities to the stock.
  unfoldable pub restore_items : List (OrderItem V) → M V (Unit {0})
  restore_items [] = pure tt
  restore_items (item ∷ items) = do
    increase_stock item.product_id item.quantity
    restore_items items

  -- `if order.PromoCodeID != nil { DecrementPromoUses }` of `Cancel`
  unfoldable pub release_promo : Option Uuid → M V (Unit {0})
  release_promo none = pure tt
  release_promo (some id) = decrement_promo_uses id

  unfoldable pub cancel_body : Uuid → UserClaims → M V (Order V)
  cancel_body order_id claims = do
    order ← get_order_for_update order_id
    fail_if (not (may_touch claims order.user_id)) forbidden
    fail_if (not (cancellable order.status)) invalid_transition
    items ← get_order_items order_id
    restore_items items
    release_promo order.promo_code_id
    order' ← cancel_order_tx order
    pure (record order' { items = items })

  unfoldable pub cancel : Uuid → UserClaims → M V (Order V)
  cancel order_id claims = with_tx (cancel_body order_id claims)

  -- The error of `LockPromo` is dropped: whatever it is, the promo code is invalid.
  unfoldable pub or_promo_invalid : M V (PromoCode V) → M V (PromoCode V)
  or_promo_invalid m env s =
      let (r, s') = m env s in
      elim r [ ok promo ↦ (ok promo, s') | err e ↦ (err promo_invalid, s') ]

  -- The uses are up, or the code is switched off.
  abbrev pub is_spent : PromoCode V → Bool
  is_spent promo = not promo.active || leb_ℤ promo.max_uses promo.current_uses

module _ {V : Type 0} ⦃f : Float64 V⦄ where
  abbrev pub order_line : OrderItemRequest → V → OrderItem V
  order_line req price = record {
    id = 0;
    order_id = 0;
    product_id = req.product_id;
    quantity = req.quantity;
    price_at_order = price;
  }

  -- One round of the loop of `reserveItems`.
  unfoldable pub reserve_item : OrderItemRequest → M V (OrderItem V)
  reserve_item req = do
    product ← lock_product req.product_id
    fail_if (not (is_on_sale product.status)) product_inactive
    fail_if (ltb_ℤ product.stock req.quantity) insufficient_stock
    decrease_stock req.product_id req.quantity
    pure (order_line req product.price)

  -- total += product.Price * float64(req.Quantity)
  abbrev pub add_line : V → OrderItem V → V
  add_line total item = f.add total (f.mul item.price_at_order (f.of_int item.quantity))

  -- The loop, over the total and the items so far.
  unfoldable pub reserve_from :
      List (OrderItem V) → V → List OrderItemRequest → M V (List (OrderItem V) × V)
  reserve_from done total [] = pure (done, total)
  reserve_from done total (req ∷ reqs) = do
    item ← reserve_item req
    reserve_from (done ++ (item ∷ [])) (add_line total item) reqs

  unfoldable pub reserve_items : List OrderItemRequest → M V (List (OrderItem V) × V)
  reserve_items reqs = reserve_from [] f.zero reqs

  -- `promoCode` given and not empty: the promo's id and the discount.
  unfoldable pub apply_promo : String → V → M V (Option Uuid × V)
  apply_promo code total = do
    promo ← or_promo_invalid (lock_promo code)
    fail_if (is_spent promo) promo_invalid
    now ← read_clock
    fail_if (ltb_ℤ now promo.valid_from) promo_invalid
    now' ← read_clock
    fail_if (ltb_ℤ promo.valid_until now') promo_invalid
    fail_if (f.lt total promo.min_order_amount) promo_min_amount
    increment_promo_uses promo.id
    pure (some promo.id, calc_discount promo total)

  unfoldable pub promo_for : Option String → V → M V (Option Uuid × V)
  promo_for none total = pure (none, f.zero)
  promo_for (some code) total =
      if same_text code "" then pure (none, f.zero) else apply_promo code total

  -- The order that `Create` inserts; the id and the times come from the database.
  abbrev pub fresh_order : Uuid → List (OrderItem V) → V → Option Uuid × V → Order V
  fresh_order user_id items total (promo_id, discount) = record {
    id = 0;
    user_id = user_id;
    status = created;
    items = items;
    total_amount = total;
    discount_amount = discount;
    promo_code_id = promo_id;
    created_at = pos 0;
    updated_at = pos 0;
  }

  abbrev pub set_order_id : Uuid → OrderItem V → OrderItem V
  set_order_id order_id item = record item { order_id = order_id }

  -- What `Create` writes once the items are reserved and the promo is settled. The slice of the
  -- result is the one that `InsertOrderItems` writes the ids to.
  unfoldable pub place_order : Uuid → List (OrderItem V) → V → Option Uuid × V → M V (Order V)
  place_order user_id items total promo = do
    order ← insert_order (fresh_order user_id items total promo)
    items' ← insert_order_items order.id (map (set_order_id order.id) items)
    insert_user_op user_id create_order
    pure (record order { items = items' })

  unfoldable pub create_body : ℤ → Uuid → List OrderItemRequest → Option String → M V (Order V)
  create_body rate_limit_minutes user_id reqs promo_code = do
    limited ← rate_limit_check user_id create_order rate_limit_minutes
    fail_if limited order_limit_exceeded
    has_active ← has_active_order user_id
    fail_if has_active active_order_exists
    reserved ← reserve_items reqs
    promo ← promo_for promo_code reserved.1
    place_order user_id reserved.0 reserved.1 promo

  unfoldable pub create : ℤ → Uuid → List OrderItemRequest → Option String → M V (Order V)
  create rate_limit_minutes user_id reqs promo_code =
      with_tx (create_body rate_limit_minutes user_id reqs promo_code)

  -- The promo is given back: its uses go down, and the order has none.
  unfoldable pub drop_promo : Uuid → M V (Option Uuid × V)
  drop_promo id = do decrement_promo_uses id; pure (none, f.zero)

  -- The two arms behind a `LockPromoByID` that did not fail.
  unfoldable pub keep_promo : V → PromoCode V → M V (Option Uuid × V)
  keep_promo total promo =
      if f.lt total promo.min_order_amount
      then drop_promo promo.id
      else pure (some promo.id, calc_discount promo total)

  -- The promo of an order whose items change. Any error of `LockPromoByID` gives it back.
  unfoldable pub reprice : Option Uuid → V → M V (Option Uuid × V)
  reprice none total env s = pure (none, f.zero) env s
  reprice (some id) total env s =
      let (r, s') = lock_promo_by_id id env s in
      elim r [ ok promo ↦ keep_promo total promo env s' | err e ↦ drop_promo id env s' ]

  abbrev pub amended : Order V → List (OrderItem V) → V → Option Uuid × V → Order V
  amended order items total (promo_id, discount) = record order {
    total_amount = total;
    discount_amount = discount;
    promo_code_id = promo_id;
    items = items;
  }

  -- What `Update` writes once the items are exchanged and the promo is settled.
  unfoldable pub amend_order :
      UserClaims → Order V → List (OrderItem V) → V → Option Uuid × V → M V (Order V)
  amend_order claims order items total promo = do
    delete_order_items order.id
    items' ← insert_order_items order.id (map (set_order_id order.id) items)
    order' ← update_order_tx (amended order items' total promo)
    insert_user_op claims.user_id update_order
    pure order'

  unfoldable pub update_body : ℤ → Uuid → UserClaims → List OrderItemRequest → M V (Order V)
  update_body rate_limit_minutes order_id claims reqs = do
    order ← get_order_for_update order_id
    fail_if (not (may_touch claims order.user_id)) forbidden
    fail_if (not (same_status order.status created)) invalid_transition
    limited ← rate_limit_check claims.user_id update_order rate_limit_minutes
    fail_if limited order_limit_exceeded
    old_items ← get_order_items order_id
    restore_items old_items
    reserved ← reserve_items reqs
    promo ← reprice order.promo_code_id reserved.1
    amend_order claims order reserved.0 reserved.1 promo

  unfoldable pub update : ℤ → Uuid → UserClaims → List OrderItemRequest → M V (Order V)
  update rate_limit_minutes order_id claims reqs =
      with_tx (update_body rate_limit_minutes order_id claims reqs)
