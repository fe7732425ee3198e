-- ===== src/Marketplace/Repository/Orders.antt =====
-- repository/order.go: the statements on orders, stock, promo codes and user operations.
use mathlib.Core.Bool.{not}
use service_oriented_hw.Common.{
  Bool, true, false, ◌&&◌, Option, none, some, List, [], ◌∷◌, ◌++◌, String, ◌==◌, if◌then◌else◌,
  ltb, count_if, keep_if,
}
use service_oriented_hw.Common.Int.{ℤ, pos, ◌+ℤ◌, ◌-ℤ◌, ◌*ℤ◌, ltb_ℤ, wrap64}
use service_oriented_hw.Common.Float.{Float64}
use service_oriented_hw.Common.Table.{find_by, modify_by}
use service_oriented_hw.Marketplace.Domain.{
  Uuid, Time, Product, PromoCode, OrderItem, Order, OrderStatus, created, payment_pending, canceled,
  OperationType, create_order, update_order,
}
use service_oriented_hw.Marketplace.Domain.Status.{same_status}
use service_oriented_hw.Marketplace.Session.{
  UserOperation, Db, M, ◌>>=◌, pure, query, query_rows, exec, returning, insert, read_clock, found,
}
use text.Mathlib.Text.{◌==◌ as same_text}

-- status IN ('CREATED','PAYMENT_PENDING')
abbrev pub is_active : OrderStatus → Bool
is_active s = if same_status s created then true else same_status s payment_pending

abbrev pub same_operation : OperationType → OperationType → Bool
same_operation create_order create_order = true
same_operation update_order update_order = true
same_operation _ _ = false

-- user_id=$1 AND operation_type=$2 AND created_at > $3
abbrev pub recent : Uuid → OperationType → Time → UserOperation → Bool
recent user_id op_type cutoff op =
    op.user_id == user_id && same_operation op.operation_type op_type && ltb_ℤ cutoff op.created_at

-- `time.Duration(limitMinutes) * time.Minute`, in nanoseconds.
unfoldable pub minutes : ℤ → ℤ
minutes n = wrap64 (n *ℤ pos 60_000_000_000)

-- GREATEST(a, b)
abbrev pub greatest : ℤ → ℤ → ℤ
greatest a b = if ltb_ℤ a b then b else a

module _ {V : Type 0} where
  -- The key columns of the tables.
  abbrev pub product_key : Product V → Uuid
  product_key p = p.id

  abbrev pub promo_key : PromoCode V → Uuid
  promo_key p = p.id

  abbrev pub order_key : Order V → Uuid
  order_key o = o.id

  abbrev pub active_of : Uuid → Order V → Bool
  active_of user_id o = o.user_id == user_id && is_active o.status

  unfoldable pub has_active_order : Uuid → M V Bool
  has_active_order user_id = do
    count ← query (λ db. count_if (active_of user_id) db.orders)
    pure (ltb 0 count)

  unfoldable pub rate_limit_check : Uuid → OperationType → ℤ → M V Bool
  rate_limit_check user_id op_type limit_minutes = do
    now ← read_clock
    count ←
        query (λ db.
          count_if (recent user_id op_type (now -ℤ minutes limit_minutes)) db.user_operations)
    pure (ltb 0 count)

  unfoldable pub lock_product : Uuid → M V (Product V)
  lock_product product_id = do
    row ← query (λ db. find_by product_key product_id db.products)
    found row

  abbrev pub set_stock : ℤ → Time → Product V → Product V
  set_stock stock now p = record p { stock = stock; updated_at = now }

  unfoldable pub decrease_stock : Uuid → ℤ → M V (Unit {0})
  decrease_stock product_id qty = exec (λ now db. record db {
    products = modify_by product_key product_id (λ p. set_stock (p.stock -ℤ qty) now p) db.products;
  })

  unfoldable pub increase_stock : Uuid → ℤ → M V (Unit {0})
  increase_stock product_id qty = exec (λ now db. record db {
    products = modify_by product_key product_id (λ p. set_stock (p.stock +ℤ qty) now p) db.products;
  })

  -- WHERE code=$1
  abbrev pub find_code : String → List (PromoCode V) → Option (PromoCode V)
  find_code code [] = none
  find_code code (p ∷ ps) = if same_text p.code code then some p else find_code code ps

  unfoldable pub lock_promo : String → M V (PromoCode V)
  lock_promo code = do row ← query (λ db. find_code code db.promo_codes); found row

  unfoldable pub lock_promo_by_id : Uuid → M V (PromoCode V)
  lock_promo_by_id id = do row ← query (λ db. find_by promo_key id db.promo_codes); found row

  abbrev pub set_uses : ℤ → PromoCode V → PromoCode V
  set_uses n p = record p { current_uses = n }

  unfoldable pub increment_promo_uses : Uuid → M V (Unit {0})
  increment_promo_uses promo_id = exec (λ now db. record db {
    promo_codes =
        modify_by promo_key promo_id (λ p. set_uses (p.current_uses +ℤ pos 1) p) db.promo_codes;
  })

  unfoldable pub decrement_promo_uses : Uuid → M V (Unit {0})
  decrement_promo_uses promo_id = exec (λ now db. record db {
    promo_codes =
        modify_by promo_key promo_id (λ p. set_uses (greatest (p.current_uses -ℤ pos 1) (pos 0)) p)
          db.promo_codes;
  })

  unfoldable pub get_order_for_update : Uuid → M V (Order V)
  get_order_for_update order_id = do
    row ← query (λ db. find_by order_key order_id db.orders)
    found row

  abbrev pub belongs_to : Uuid → OrderItem V → Bool
  belongs_to order_id it = it.order_id == order_id

  unfoldable pub get_order_items : Uuid → M V (List (OrderItem V))
  get_order_items order_id = query (λ db. keep_if (belongs_to order_id) db.order_items)

  unfoldable pub delete_order_items : Uuid → M V (Unit {0})
  delete_order_items order_id = exec (λ now db. record db {
    order_items = keep_if (λ it. not (belongs_to order_id it)) db.order_items;
  })

  unfoldable pub insert_user_op : Uuid → OperationType → M V (Unit {0})
  insert_user_op user_id op_type = exec (λ now db. record db {
    user_operations =
        db.user_operations
        ++ (record { user_id = user_id; operation_type = op_type; created_at = now } ∷ []);
  })

  abbrev pub has_order : Uuid → Db V → Bool
  has_order id db = elim (find_by order_key id db.orders) [ none ↦ false | some _ ↦ true ]

  -- The order that the caller holds, with the new status and `updated_at`.
  unfoldable pub cancel_order_tx : Order V → M V (Order V)
  cancel_order_tx o = do
    updated_at ← returning (has_order o.id) (λ now db. record db {
      orders =
          modify_by order_key o.id (λ row. record row { status = canceled; updated_at = now })
            db.orders;
    })
    pure (record o { status = canceled; updated_at = updated_at })

  -- `getItems` and `OrderRepo.GetByID`: two statements outside any transaction.
  unfoldable pub get_by_id : Uuid → M V (Order V)
  get_by_id id = do
    row ← query (λ db. find_by order_key id db.orders)
    o ← found row
    items ← query_rows (λ db. keep_if (belongs_to id) db.order_items)
    pure (record o { items = items })

module _ {V : Type 0} ⦃f : Float64 V⦄ where
  abbrev pub new_order : Order V → Uuid → Time → Order V
  new_order o id now = record o { id = id; created_at = now; updated_at = now }

  -- The row that an order is stored in.
  abbrev pub order_row : Order V → Order V
  order_row o = record o {
    items = [];
    total_amount = f.decimal_12_2 o.total_amount;
    discount_amount = f.decimal_12_2 o.discount_amount;
  }

  unfoldable pub insert_order : Order V → M V (Order V)
  insert_order o =
      insert has_order (new_order o)
        (λ row db. record db { orders = db.orders ++ (order_row row ∷ []) })

  abbrev pub item_taken : Uuid → List (OrderItem V) → Bool
  item_taken id [] = false
  item_taken id (it ∷ its) = if it.id == id then true else item_taken id its

  -- The row that an item is stored in.
  abbrev pub item_row : Uuid → OrderItem V → OrderItem V
  item_row order_id item = record item {
    order_id = order_id;
    price_at_order = f.decimal_12_2 item.price_at_order;
  }

  -- One round of `InsertOrderItems`: the item with its new id, and its row.
  unfoldable pub insert_order_item : Uuid → OrderItem V → M V (OrderItem V)
  insert_order_item order_id item =
      insert (λ id db. item_taken id db.order_items) (λ id now. record item { id = id })
        (λ item db. record db { order_items = db.order_items ++ (item_row order_id item ∷ []) })

  -- `items[i].ID` is set in the slice of the caller, which is the result here.
  unfoldable pub insert_order_items : Uuid → List (OrderItem V) → M V (List (OrderItem V))
  insert_order_items order_id [] = pure []
  insert_order_items order_id (item ∷ items) = do
    item' ← insert_order_item order_id item
    items' ← insert_order_items order_id items
    pure (item' ∷ items')

  -- The columns that `UpdateOrderTx` writes.
  abbrev pub update_row : Order V → Time → Order V → Order V
  update_row o now row = record row {
    status = o.status;
    promo_code_id = o.promo_code_id;
    total_amount = f.decimal_12_2 o.total_amount;
    discount_amount = f.decimal_12_2 o.discount_amount;
    updated_at = now;
  }

  unfoldable pub update_order_tx : Order V → M V (Order V)
  update_order_tx o = do
    updated_at ←
        returning (has_order o.id)
          (λ now db. record db { orders = modify_by order_key o.id (update_row o now) db.orders })
    pure (record o { updated_at = updated_at })
