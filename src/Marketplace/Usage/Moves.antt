-- ===== src/Marketplace/Usage/Moves.antt =====
-- The moves of the order code on orders and promo codes keep the counts.
use service_oriented_hw.Common.{
  ℕ, ◌+◌, ◌≡◌, ◌≤◌, refl, ap, sym, ◌∙◌, false, Option, none, some, List, [], ◌∷◌, ◌++◌, ◌==◌,
  if◌then◌else◌, arith, Bool-cases, inl, inr, ==_iff, count_if, count_if-append, String, one_if,
}
use service_oriented_hw.Common.Int.{pos, ◌+ℤ◌, ◌≤ℤ◌, ◌<ℤ◌, int_laws}
use service_oriented_hw.Common.Table.{find_by, has_key, Distinct, modify_by-Distinct}
use service_oriented_hw.Marketplace.Domain.{Uuid, PromoCode, Order, created}
use service_oriented_hw.Marketplace.Repository.Orders.{promo_key, active_of, find_code}
use service_oriented_hw.Marketplace.Orders.Usecase.{is_spent}
use service_oriented_hw.Marketplace.Usage.{uses_in, max_in, incremented, names, holds}
use service_oriented_hw.Marketplace.Usage.Tables.{
  find_code-find_by, uses_in-incremented, max_in-incremented, uses_in-decremented,
  max_in-decremented,
}
use service_oriented_hw.Marketplace.Usage.Promo.{Takes, GivesBack}

module _ {V : Type 0} where
  -- A new order of a user without an active one, with a use that was taken for it.
  module _ (orders : List (Order V)) (o : Order V) where
    pub count_holds :
        (id : Uuid)
        → o.status ≡ created
        → count_if (holds id) (orders ++ o ∷ [])
          ≡ count_if (holds id) orders + one_if (names id o.promo_code_id)
    count_holds id new = count_if-append (holds id) orders (o ∷ []) ∙ ground arith

    pub placed_most :
        (user_id : Uuid) (n : ℕ)
        → count_if (active_of user_id) orders + one_if (o.user_id == user_id) ≤ n
        → count_if (active_of user_id) (orders ++ o ∷ []) ≤ n
    placed_most user_id n h = ground (arith, count_if-append (active_of user_id) orders (o ∷ []))

  -- A user without an active order may have one.
  pub idle_room :
      (orders : List (Order V)) (owner user_id : Uuid)
      → count_if (active_of owner) orders ≡ 0
      → count_if (active_of user_id) orders ≤ 1
      → count_if (active_of user_id) orders + one_if (owner == user_id) ≤ 1
  idle_room orders owner user_id idle h = elim (Bool-cases (owner == user_id)) [
    | inl own ↦
        let same : owner ≡ user_id = (==_iff owner user_id).0 own in
        let idle' : count_if (active_of user_id) orders ≡ 0 =
          ap (λ u. count_if (active_of u) orders) (sym same) ∙ idle in
        ground (arith, own)
    | inr other ↦ ground (arith, other)
  ]

  unspent : (p : PromoCode V) → is_spent p ≡ false → p.current_uses <ℤ p.max_uses
  unspent p h = ground arith

  module _ (ps : List (PromoCode V)) (code : String) (p : PromoCode V) (ids : Distinct promo_key ps)
      (row : find_code code ps ≡ some p) where
    row_of_code : find_by promo_key p.id ps ≡ some p
    row_of_code = find_code-find_by code ps p ids row

    taken_uses :
        (id : Uuid)
        → uses_in id (incremented p.id ps)
          ≡ (if p.id == id then uses_in id ps +ℤ pos 1 else uses_in id ps)
    taken_uses id = uses_in-incremented id p.id ps (rw (row_of_code, has_key))

    taken_within :
        (id : Uuid)
        → is_spent p ≡ false
        → uses_in id ps ≤ℤ max_in id ps
        → uses_in id (incremented p.id ps) ≤ℤ max_in id (incremented p.id ps)
    taken_within id good h = elim (Bool-cases (p.id == id)) [
      | inl here ↦
          let at_id = (==_iff p.id id).0 here in
          let u : uses_in id ps ≡ p.current_uses = rw (← at_id, row_of_code) in
          let m : max_in id ps ≡ p.max_uses = rw (← at_id, row_of_code) in
          let room = unspent p good in
          rw (taken_uses id, max_in-incremented id p.id ps, here, u, m) (omega int_laws)
      | inr other ↦ rw (taken_uses id, max_in-incremented id p.id ps, other) h
    ]

  pub Takes-uses :
      (id : Uuid) (ps ps' : List (PromoCode V)) (promo : Option Uuid) (n : ℕ)
      → Distinct promo_key ps
      → Takes ps ps' promo
      → uses_in id ps ≡ pos n
      → uses_in id ps' ≡ pos (n + one_if (names id promo))
  Takes-uses id ps ps' none n ids t h = rw t (h ∙ ground arith)
  Takes-uses id ps ps' (some k) n ids (code, p, row, mine, good, w) h =
      let after : uses_in id ps' ≡ (if p.id == id then uses_in id ps +ℤ pos 1 else uses_in id ps) =
        ap (uses_in id) w
        ∙ ap (λ j. uses_in id (incremented j ps)) (sym mine)
        ∙ taken_uses ps code p ids row id in
      after ∙ rw (mine, h) (grind int_laws)

  pub Takes_within :
      (id : Uuid) (ps ps' : List (PromoCode V)) (promo : Option Uuid)
      → Distinct promo_key ps
      → Takes ps ps' promo
      → uses_in id ps ≤ℤ max_in id ps
      → uses_in id ps' ≤ℤ max_in id ps'
  Takes_within id ps ps' none ids t h = rw t h
  Takes_within id ps ps' (some k) ids (code, p, row, mine, good, w) h =
      rw (w, ← mine) (taken_within ps code p ids row id good h)

  pub Takes-Distinct :
      (ps ps' : List (PromoCode V)) (promo : Option Uuid)
      → Distinct promo_key ps
      → Takes ps ps' promo
      → Distinct promo_key ps'
  Takes-Distinct ps ps' none ids t = rw t ids
  Takes-Distinct ps ps' (some k) ids (code, p, row, mine, good, w) =
      rw w (modify_by-Distinct promo_key k _ ps (λ x. refl) ids)

  -- A use is given back that an open order had.
  pub GivesBack-uses :
      (id : Uuid) (ps ps' : List (PromoCode V)) (promo : Option Uuid) (count : Uuid → ℕ)
      → GivesBack ps ps' promo
      → ((j : Uuid) → uses_in j ps ≡ pos (count j + one_if (names j promo)))
      → uses_in id ps' ≡ pos (count id)
  GivesBack-uses id ps ps' none count g h = rw g (h id ∙ ground arith)
  GivesBack-uses id ps ps' (some k) count g h =
      let here : uses_in k ps ≡ pos (count k + 1) = h k ∙ ground (arith, ==_iff k k) in
      ap (uses_in id) g ∙ uses_in-decremented id k ps (count k) here ∙ elim (Bool-cases (k == id)) [
        | inl mine ↦ rw (mine, (==_iff k id).0 mine)
        | inr other ↦ rw other (h id ∙ rw other (ground arith))
      ]

  pub GivesBack-max :
      (id : Uuid) (ps ps' : List (PromoCode V)) (promo : Option Uuid)
      → GivesBack ps ps' promo
      → max_in id ps' ≡ max_in id ps
  GivesBack-max id ps ps' none g = rw g
  GivesBack-max id ps ps' (some k) g = ap (max_in id) g ∙ max_in-decremented id k ps

  pub GivesBack-Distinct :
      (ps ps' : List (PromoCode V)) (promo : Option Uuid)
      → Distinct promo_key ps
      → GivesBack ps ps' promo
      → Distinct promo_key ps'
  GivesBack-Distinct ps ps' none ids g = rw g ids
  GivesBack-Distinct ps ps' (some k) ids g =
      rw g (modify_by-Distinct promo_key k _ ps (λ x. refl) ids)
