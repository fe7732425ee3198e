-- ===== src/Marketplace/Session.antt =====
-- The database that the repository works on, and the monad of a request that talks to it.
-- The tables are those of migrations/00001_init.sql. What decides the course of a run and is not in
-- the repository is the `Env`: which statement the driver or the server refuses (a lost connection,
-- a constraint, a number out of the column's range), the ids that gen_random_uuid() gives, the
-- readings of the clock, the time of the transaction, what becomes of its commit, and after how many
-- rows the reading of a result breaks off.
pub mod Steps
use service_oriented_hw.Common.{ℕ, ◌+◌, Bool, Option, none, some, List, take, if◌then◌else◌}
use service_oriented_hw.Marketplace.Domain.{
  Uuid, Time, Product, PromoCode, OrderItem, Order, OperationType, Error, internal, not_found,
}

pub record UserOperation : Type 0 where
  pub user_id : Uuid
  pub operation_type : OperationType
  pub created_at : Time

-- A row of `orders` is an `Order` whose `items` is empty: the items stand in `order_items`.
pub record Db (V : Type 0) : Type 0 where
  pub products : List (Product V)
  pub promo_codes : List (PromoCode V)
  pub orders : List (Order V)
  pub order_items : List (OrderItem V)
  pub user_operations : List UserOperation

-- What a `Commit` comes to: it is done and acknowledged, it is not done and an error is returned,
-- or it is done and the reply is lost, so that an error is returned all the same.
pub data CommitReply : Type 0 where
  acknowledged refused lost : CommitReply

pub record Env : Type 0 where
  pub refuses : ℕ → Bool
  pub new_uuid : ℕ → Uuid
  pub clock : ℕ → Time
  pub tx_time : Time
  pub commit : CommitReply
  pub cut : ℕ → Option ℕ

-- The rows that a loop over `rows.Next()` reads, if the reading breaks off after so many: it ends
-- the loop as the last row does.
abbrev pub cut_to : {A : Type 0} → Option ℕ → List A → List A
cut_to none rows = rows
cut_to (some n) rows = take n rows

-- `calls` numbers the statements and the readings of the clock.
pub record Session (V : Type 0) : Type 0 where
  pub db : Db V
  pub calls : ℕ

pub data Result {ℓ} (A : Type ℓ) : Type ℓ where
  ok : A → Result A
  err : Error → Result A

abbrev pub M : Type 0 → Type 0 → Type 0
M V A = Env → Session V → Result A × Session V

module _ {V : Type 0} where
  abbrev pub pure : {A : Type 0} → A → M V A
  pure a env s = (ok a, s)

  abbrev pub fail : {A : Type 0} → Error → M V A
  fail e env s = (err e, s)

  infixl 5 ◌>>=◌ ◌>>◌
  unfoldable pub ◌>>=◌ : {A B : Type 0} → M V A → (A → M V B) → M V B
  ◌>>=◌ m f env s = let (r, s') = m env s in elim r [ ok a ↦ f a env s' | err e ↦ (err e, s') ]

  abbrev pub ◌>>◌ : {B : Type 0} → M V (Unit {0}) → M V B → M V B
  m >> k = m >>= λ _. k

  -- `if c { return e }`
  abbrev pub fail_if : Bool → Error → M V (Unit {0})
  fail_if c e env s = (if c then err e else ok tt, s)

  abbrev pub next_call : Session V → Session V
  next_call s = record s { calls = s.calls + 1 }

  -- A statement that reads.
  unfoldable pub query : {A : Type 0} → (Db V → A) → M V A
  query read env s = (if env.refuses s.calls then err internal else ok (read s.db), next_call s)

  -- A statement whose rows are read in a loop that does not look at `rows.Err()` behind it.
  unfoldable pub query_rows : {A : Type 0} → (Db V → List A) → M V (List A)
  query_rows read env s = query (λ db. cut_to (env.cut s.calls) (read db)) env s

  -- A statement that writes; it is given the transaction's `now()`.
  unfoldable pub exec : (Time → Db V → Db V) → M V (Unit {0})
  exec write env s =
      if env.refuses s.calls
      then (err internal, next_call s)
      else (ok tt, record { db = write env.tx_time s.db; calls = s.calls + 1 })

  -- An UPDATE ... RETURNING updated_at of one row: no row is an error.
  unfoldable pub returning : (Db V → Bool) → (Time → Db V → Db V) → M V Time
  returning has_row write env s =
      if env.refuses s.calls
      then (err internal, next_call s)
      else if has_row s.db
      then (ok env.tx_time, record { db = write env.tx_time s.db; calls = s.calls + 1 })
      else (err internal, next_call s)

  -- An INSERT that returns the new row: it is given a new id and `now()`. A primary key that is
  -- taken is refused.
  unfoldable pub insert :
      {A : Type 0} → (Uuid → Db V → Bool) → (Uuid → Time → A) → (A → Db V → Db V) → M V A
  insert taken new write env s =
      let row = new (env.new_uuid s.calls) env.tx_time in
      if env.refuses s.calls
      then (err internal, next_call s)
      else if taken (env.new_uuid s.calls) s.db
      then (err internal, next_call s)
      else (ok row, record { db = write row s.db; calls = s.calls + 1 })

  -- `time.Now()`
  unfoldable pub read_clock : M V Time
  read_clock env s = (ok (env.clock s.calls), next_call s)

  -- `errors.Is(err, pgx.ErrNoRows)` and its `domain.ErrNotFound`.
  abbrev pub found : {A : Type 0} → Option A → M V A
  found none = fail not_found
  found (some a) = pure a
