-- ===== src/Marketplace/Products/Laws.antt =====
-- What the product use cases promise, and where they do not do what they mean to.
use service_oriented_hw.Common.{◌+◌, ◌≡◌, ◌≢◌, false, none, some, arith}
use service_oriented_hw.Common.Int.{pos}
use service_oriented_hw.Common.Float.{Float64}
use service_oriented_hw.Common.Table.{find_by, modify_by, key_of_found}
use service_oriented_hw.Marketplace.Domain.{Uuid, Product, UserClaims, seller, user, forbidden}
use service_oriented_hw.Marketplace.Session.{
  Env, Session, ok, err, ◌>>=◌, query, next_call, acknowledged,
}
use service_oriented_hw.Marketplace.Session.Steps.{after_bind, after_guard}
use service_oriented_hw.Marketplace.Repository.Orders.{product_key}
use service_oriented_hw.Marketplace.Repository.Tx.{at_once, at_once_ok, finish}
use service_oriented_hw.Marketplace.Products.{
  ProductUpdate, get_by_id, update, update_row, written_row, merge, to_update, delete, delete_row,
  archive_row,
}

module _ {V : Type 0} ⦃f : Float64 V⦄ where
  -- A successful update whose request leaves the stock out returns a row with no stock, whatever the
  -- stock was.
  pub update_without_stock :
      (id : Uuid) (claims : UserClaims) (body : ProductUpdate V) (env : Env) (s s' : Session V)
      (p : Product V)
      → body.stock ≡ none
      → update id claims (to_update body) env s ≡ (ok p, s')
      → p.stock ≡ pos 0
  unfolding update update_row merge to_update
  update_without_stock id claims body env s s' p left_out h =
      after_bind _ _ env s h λ existing t e rest.
        after_guard _ _ _ env t rest
          λ _ rest'. let written = at_once_ok _ env t p s' rest' in ground (arith, written)

  -- A plain USER who does not sell a product can change it and archive it, as if it were the user's
  -- own: if the product is found, neither statement is refused and the work is kept and acknowledged, both calls succeed; `Update`
  -- returns the row with the merged columns and writes it, `Delete` archives the row.
  pub user_changes_any_product :
      (id : Uuid) (claims : UserClaims) (upd p : Product V) (env : Env) (s : Session V)
      → claims.role ≡ user
      → p.seller_id ≢ claims.user_id
      → find_by product_key id (s.db).products ≡ some p
      → env.refuses s.calls ≡ false
      → env.refuses (s.calls + 1) ≡ false
      → env.commit ≡ acknowledged
      → ((update id claims upd env s).0 ≡ ok (written_row (merge p upd) env.tx_time p))
        × ((update id claims upd env s).1.db.products
            ≡ modify_by product_key id (written_row (merge p upd) env.tx_time) (s.db).products)
        × ((delete id claims env s).0 ≡ ok tt)
        × ((delete id claims env s).1.db.products
            ≡ modify_by product_key id (archive_row env.tx_time) (s.db).products)
  unfolding update update_row merge delete delete_row get_by_id query at_once finish ◌>>=◌
  user_changes_any_product id claims upd p env s role other row up up' kept =
      let key = key_of_found product_key id (s.db).products p row in
      (
        ground (arith, row, key, kept),
        ground (arith, row, key, kept),
        ground (arith, row, kept),
        ground (arith, row, kept),
      )

  -- A SELLER who is not the product's seller can neither change nor archive it: both calls are
  -- refused with `ErrForbidden`, if the product is found, and the database is the same.
  pub foreign_seller_forbidden :
      (id : Uuid) (claims : UserClaims) (upd p : Product V) (env : Env) (s : Session V)
      → claims.role ≡ seller
      → find_by product_key id (s.db).products ≡ some p
      → p.seller_id ≢ claims.user_id
      → env.refuses s.calls ≡ false
      → (update id claims upd env s ≡ (err forbidden, next_call s))
        × (delete id claims env s ≡ (err forbidden, next_call s))
  unfolding update delete get_by_id query ◌>>=◌
  foreign_seller_forbidden id claims upd p env s role row other up = (ground arith, ground arith)
