-- ===== src/Marketplace/Usage/Counts.antt =====
-- A placed, a canceled and an amended order keep the counts.
use mathlib.Core.Path.{subst}
use service_oriented_hw.Common.{
  ℕ, ◌==◌, ◌+◌, ◌≡◌, ◌≤◌, refl, ap, sym, ◌∙◌, Bool, true, false, some, List, [], ◌∷◌, ◌++◌, arith,
  inl, inr, count_if, one_if,
}
use service_oriented_hw.Common.Int.{pos, ◌≤ℤ◌}
use service_oriented_hw.Common.Float.{Float64}
use service_oriented_hw.Common.Table.{
  find_by, modify_by, has_key, append-Distinct, modify_by-Distinct, count_if-modify_by,
}
use service_oriented_hw.Marketplace.Domain.{Uuid, Time, PromoCode, Order, created}
use service_oriented_hw.Marketplace.Domain.Status.{cancellable}
use service_oriented_hw.Marketplace.Repository.Orders.{order_key, active_of, update_row}
use service_oriented_hw.Marketplace.Supply.Withdraw.{cancel_row}
use service_oriented_hw.Marketplace.Usage.{uses_in, max_in, names, holds, Counted}
use service_oriented_hw.Marketplace.Usage.Promo.{Takes, GivesBack, Settles}
use service_oriented_hw.Marketplace.Usage.Moves.{
  count_holds, placed_most, Takes-uses, Takes_within, Takes-Distinct, GivesBack-uses, GivesBack-max,
  GivesBack-Distinct,
}

one_if_mono : (a b : Bool) → (a ≡ true → b ≡ true) → one_if a ≤ one_if b
one_if_mono true b h = rw (h refl) (omega arith)
one_if_mono false b h = omega arith

module _ {V : Type 0} where
  pub placed-Counted :
      {most most' : Uuid → ℕ} (orders : List (Order V)) (ps ps' : List (PromoCode V)) (o : Order V)
      → Counted most orders ps
      → has_key order_key o.id orders ≡ false
      → o.status ≡ created
      → ((u : Uuid) → count_if (active_of u) orders + one_if (o.user_id == u) ≤ most' u)
      → Takes ps ps' o.promo_code_id
      → Counted most' (orders ++ o ∷ []) ps'
  placed-Counted {most'} orders ps ps' o c fresh new room t = record {
    order_ids = append-Distinct order_key orders o c.order_ids fresh;
    promo_ids = Takes-Distinct ps ps' o.promo_code_id c.promo_ids t;
    uses = λ id.
        Takes-uses id ps ps' o.promo_code_id (count_if (holds id) orders) c.promo_ids t (c.uses id)
        ∙ ap pos (sym (count_holds orders o id new));
    within = λ id. Takes_within id ps ps' o.promo_code_id c.promo_ids t (c.within id);
    single = λ u. placed_most orders o u (most' u) (room u);
  }

  -- A write of one order's row that keeps its id.
  module _ {most : Uuid → ℕ} (orders : List (Order V)) (ps ps' : List (PromoCode V)) (o : Order V)
      (write : Order V → Order V) (keeps : (x : Order V) → order_key (write x) ≡ order_key x)
      (c : Counted most orders ps) (row : find_by order_key o.id orders ≡ some o) where
    counts :
        (p : Order V → Bool)
        → count_if p (modify_by order_key o.id write orders) + one_if (p o)
          ≡ count_if p orders + one_if (p (write o))
    counts p = count_if-modify_by order_key p o.id write orders o c.order_ids row

    split :
        (id : Uuid)
        → holds id o ≡ names id o.promo_code_id
        → holds id (write o) ≡ false
        → count_if (holds id) orders
          ≡ count_if (holds id) (modify_by order_key o.id write orders)
            + one_if (names id o.promo_code_id)
    split id held dropped =
        let after = count_if (holds id) (modify_by order_key o.id write orders) in
        let e : after + one_if (names id o.promo_code_id) ≡ count_if (holds id) orders + 0 =
          ap (λ b. after + one_if b) (sym held)
          ∙ counts (holds id)
          ∙ ap (λ b. count_if (holds id) orders + one_if b) dropped in
        omega arith

    written_single :
        (u : Uuid)
        → (active_of u (write o) ≡ true → active_of u o ≡ true)
        → count_if (active_of u) (modify_by order_key o.id write orders) ≤ most u
    written_single u active = omega (
      arith,
      counts (active_of u),
      c.single u,
      one_if_mono (active_of u (write o)) (active_of u o) active,
    )

    -- The order was open, and holds its promo code no longer.
    given_back-Counted :
        ((id : Uuid) → holds id o ≡ names id o.promo_code_id)
        → ((id : Uuid) → holds id (write o) ≡ false)
        → ((u : Uuid) → active_of u (write o) ≡ true → active_of u o ≡ true)
        → GivesBack ps ps' o.promo_code_id
        → Counted most (modify_by order_key o.id write orders) ps'
    given_back-Counted held dropped active g =
        let count = λ (j : Uuid). count_if (holds j) (modify_by order_key o.id write orders) in
        let before : (j : Uuid) → uses_in j ps ≡ pos (count j + one_if (names j o.promo_code_id)) =
          λ j. c.uses j ∙ ap pos (split j (held j) (dropped j)) in
        let after : (j : Uuid) → uses_in j ps' ≡ pos (count j) =
          λ j. GivesBack-uses j ps ps' o.promo_code_id count g before in
        record {
          order_ids = modify_by-Distinct order_key o.id write orders keeps c.order_ids;
          promo_ids = GivesBack-Distinct ps ps' o.promo_code_id c.promo_ids g;
          uses = after;
          within = λ j.
              let room = subst (λ n. n ≤ℤ max_in j ps) (before j) (c.within j) in
              rw (after j, GivesBack-max j ps ps' o.promo_code_id g) (omega arith);
          single = λ u. written_single u (active u);
        }

    -- The order keeps its promo code, and stays open if it was.
    kept-Counted :
        ((id : Uuid) → holds id (write o) ≡ holds id o)
        → ((u : Uuid) → active_of u (write o) ≡ true → active_of u o ≡ true)
        → ps' ≡ ps
        → Counted most (modify_by order_key o.id write orders) ps'
    kept-Counted held active same = rw same (record {
      order_ids = modify_by-Distinct order_key o.id write orders keeps c.order_ids;
      promo_ids = c.promo_ids;
      uses = λ j.
          let e = counts (holds j) ∙ ap (λ b. count_if (holds j) orders + one_if b) (held j) in
          c.uses j ∙ ap pos (omega (arith, e));
      within = c.within;
      single = λ u. written_single u (active u);
    })

  pub canceled-Counted :
      {most : Uuid → ℕ} (orders : List (Order V)) (ps ps' : List (PromoCode V)) (o : Order V)
      (now : Time)
      → Counted most orders ps
      → find_by order_key o.id orders ≡ some o
      → cancellable o.status ≡ true
      → GivesBack ps ps' o.promo_code_id
      → Counted most (modify_by order_key o.id (cancel_row now) orders) ps'
  canceled-Counted orders ps ps' o now c row live g =
      given_back-Counted orders ps ps' o (cancel_row now) (λ x. refl) c row (λ id. ground arith)
        (λ id. ground arith) (λ u h. ground arith) g

module _ {V : Type 0} ⦃f : Float64 V⦄ where
  pub amended-Counted :
      {most : Uuid → ℕ} (orders : List (Order V)) (ps ps' : List (PromoCode V)) (o o' : Order V)
      (now : Time)
      → Counted most orders ps
      → find_by order_key o.id orders ≡ some o
      → o.status ≡ created
      → o'.status ≡ created
      → Settles ps ps' o.promo_code_id o'.promo_code_id
      → Counted most (modify_by order_key o.id (update_row o' now) orders) ps'
  amended-Counted orders ps ps' o o' now c row live live' (inl (same, stay)) =
      kept-Counted orders ps ps' o (update_row o' now) (λ x. refl) c row
        (λ id. rw (live, live', same)) (λ u h. ground arith) stay
  amended-Counted orders ps ps' o o' now c row live live' (inr (gone, g)) =
      given_back-Counted orders ps ps' o (update_row o' now) (λ x. refl) c row (λ id. rw live)
        (λ id. rw (live', gone)) (λ u h. ground arith) g
