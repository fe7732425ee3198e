-- ===== src/Marketplace/Usage/Promo.antt =====
-- What the order code does with a promo code: it takes a use, gives one back, or leaves it.
use service_oriented_hw.Common.{
  ◌≡◌, refl, ap, sym, ◌∙◌, false, Option, none, some, List, String, Bool-cases, inl, inr, ◌⊎◌,
  arith,
}
use mathlib.Core.Path.{subst}
use service_oriented_hw.Common.Float.{Float64}
use service_oriented_hw.Common.Table.{key_of_found}
use service_oriented_hw.Marketplace.Domain.{Uuid, PromoCode}
use service_oriented_hw.Marketplace.Session.{Db, Env, Session, Result, ok, err, query, ◌>>=◌}
use service_oriented_hw.Marketplace.Session.Steps.{
  after_bind, after_guard, pure_ok, query_ok, exec_ok, read_clock_ok, found_ok,
}
use service_oriented_hw.Marketplace.Repository.Orders.{
  promo_key, find_code, lock_promo, lock_promo_by_id, increment_promo_uses, decrement_promo_uses,
}
use service_oriented_hw.Marketplace.Orders.Usecase.{
  is_spent, promo_for, apply_promo, release_promo, drop_promo, keep_promo, reprice,
}
use service_oriented_hw.Marketplace.Supply.Promo.{or_promo_invalid_ok}
use service_oriented_hw.Marketplace.Usage.{incremented, decremented}
use text.Mathlib.Text.{◌==◌ as same_text}

module _ {V : Type 0} where
  -- A use was taken of a promo code that was not spent, or none was.
  abbrev pub Takes : List (PromoCode V) → List (PromoCode V) → Option Uuid → Type 0
  Takes ps ps' none = ps' ≡ ps
  Takes ps ps' (some id) =
      (code : String) × (p : PromoCode V) × (find_code code ps ≡ some p)
      × (p.id ≡ id)
      × (is_spent p ≡ false)
      × (ps' ≡ incremented id ps)

  abbrev pub GivesBack : List (PromoCode V) → List (PromoCode V) → Option Uuid → Type 0
  GivesBack ps ps' none = ps' ≡ ps
  GivesBack ps ps' (some id) = ps' ≡ decremented id ps

  lock_promo_found :
      (code : String) (env : Env) (s : Session V) {p : PromoCode V} {s' : Session V}
      → lock_promo code env s ≡ (ok p, s')
      → (find_code code (s.db).promo_codes ≡ some p) × (s'.db ≡ s.db)
  unfolding lock_promo
  lock_promo_found code env s h = after_bind _ _ env s h λ row t e rest.
      let (read, same) = query_ok _ env s e in
      let (is_row, stay) = found_ok row env t rest in
      (sym read ∙ is_row, ap (λ (x : Session V). x.db) stay ∙ same)

  lock_promo_by_id_found :
      (id : Uuid) (env : Env) (s : Session V) {p : PromoCode V} {s' : Session V}
      → lock_promo_by_id id env s ≡ (ok p, s')
      → (p.id ≡ id) × (s'.db ≡ s.db)
  unfolding lock_promo_by_id
  lock_promo_by_id_found id env s {p} h = after_bind _ _ env s h λ row t e rest.
      let (read, same) = query_ok _ env s e in
      let (is_row, stay) = found_ok row env t rest in
      (
        key_of_found promo_key id (s.db).promo_codes p (sym read ∙ is_row),
        ap (λ (x : Session V). x.db) stay ∙ same,
      )

  pub release_promo-GivesBack :
      (id : Option Uuid) (env : Env) (s : Session V) {u : Unit {0}} {s' : Session V}
      → release_promo id env s ≡ (ok u, s')
      → GivesBack s.db.promo_codes s'.db.promo_codes id
  unfolding release_promo decrement_promo_uses
  release_promo-GivesBack none env s h =
      ap (λ (x : Session V). x.db.promo_codes) ((pure_ok tt env s h).1)
  release_promo-GivesBack (some id) env s h = ap (λ (x : Db V). x.promo_codes) (exec_ok _ env s h)

module _ {V : Type 0} ⦃f : Float64 V⦄ where
  apply_promo-Takes :
      (code : String) (total : V) (env : Env) (s : Session V) {r : Option Uuid × V} {s' : Session V}
      → apply_promo code total env s ≡ (ok r, s')
      → Takes s.db.promo_codes s'.db.promo_codes r.0
  unfolding apply_promo increment_promo_uses
  apply_promo-Takes code total env s {r} {s'} h = after_bind _ _ env s h λ promo t e h1.
      after_guard _ _ _ env t h1 λ good h2. after_bind _ _ env t h2 λ now t2 e2 h3.
        after_guard _ _ _ env t2 h3 λ _ h4. after_bind _ _ env t2 h4 λ now' t4 e4 h5.
          after_guard _ _ _ env t4 h5 λ _ h6. after_guard _ _ _ env t4 h6 λ _ h7.
            after_bind _ _ env t4 h7 λ _ t7 e7 h8.
              let (row, same) = lock_promo_found code env s (or_promo_invalid_ok _ env s e) in
              let (is, stay) = pure_ok _ env t7 h8 in
              let before = read_clock_ok env t2 e4 ∙ read_clock_ok env t e2 ∙ same in
              let written =
                ap (λ (x : Session V). x.db.promo_codes) stay
                ∙ ap (λ (x : Db V). x.promo_codes) (exec_ok _ env t4 e7)
                ∙ ap (λ (x : Db V). incremented promo.id x.promo_codes) before in
              rw is (code, promo, row, refl, good, written)

  pub promo_for-Takes :
      (code : Option String) (total : V) (env : Env) (s : Session V) {r : Option Uuid × V}
      {s' : Session V}
      → promo_for code total env s ≡ (ok r, s')
      → Takes s.db.promo_codes s'.db.promo_codes r.0
  unfolding promo_for
  promo_for-Takes none total env s h =
      let (is, stay) = pure_ok _ env s h in rw is (ap (λ (x : Session V). x.db.promo_codes) stay)
  promo_for-Takes (some code) total env s h = elim (Bool-cases (same_text code "")) [
    | inl empty ↦
        let h' = (rw (empty) at h) in
        let (is, stay) = pure_ok _ env s h' in rw is (ap (λ (x : Session V). x.db.promo_codes) stay)
    | inr given ↦ apply_promo-Takes code total env s (rw given at h)
  ]

  -- The promo code of an order that changes stays with it, or is given back.
  abbrev pub Settles : List (PromoCode V) → List (PromoCode V) → Option Uuid → Option Uuid → Type 0
  Settles ps ps' old new = ((new ≡ old) × (ps' ≡ ps)) ⊎ ((new ≡ none) × GivesBack ps ps' old)

  drop_promo-Settles :
      (id : Uuid) (env : Env) (s : Session V) {r : Option Uuid × V} {s' : Session V}
      → drop_promo id env s ≡ (ok r, s')
      → Settles s.db.promo_codes s'.db.promo_codes (some id) r.0
  unfolding drop_promo decrement_promo_uses
  drop_promo-Settles id env s h = after_bind _ _ env s h λ _ t e rest.
      let (is, stay) = pure_ok _ env t rest in
      rw is (
        inr (
          refl,
          ap (λ (x : Session V). x.db.promo_codes) stay
              ∙ ap (λ (x : Db V). x.promo_codes) (exec_ok _ env s e),
        ))

  keep_promo-Settles :
      (total : V) (promo : PromoCode V) (env : Env) (s : Session V) {r : Option Uuid × V}
      {s' : Session V}
      → keep_promo total promo env s ≡ (ok r, s')
      → Settles s.db.promo_codes s'.db.promo_codes (some promo.id) r.0
  unfolding keep_promo
  keep_promo-Settles total promo env s h = elim (Bool-cases (f.lt total promo.min_order_amount)) [
    | inl small ↦ drop_promo-Settles promo.id env s (rw small at h)
    | inr enough ↦
        let h' = (rw (enough) at h) in
        let (is, stay) = pure_ok _ env s h' in
        rw is (inl (refl, ap (λ (x : Session V). x.db.promo_codes) stay))
  ]

  lock_promo_by_id_same :
      (id : Uuid) (env : Env) (s : Session V) → (lock_promo_by_id id env s).1.db ≡ s.db
  unfolding lock_promo_by_id query ◌>>=◌
  lock_promo_by_id_same id env s = ground arith

  pub reprice-Settles :
      (promo : Option Uuid) (total : V) (env : Env) (s : Session V) {r : Option Uuid × V}
      {s' : Session V}
      → reprice promo total env s ≡ (ok r, s')
      → Settles s.db.promo_codes s'.db.promo_codes promo r.0
  unfolding reprice
  reprice-Settles none total env s h =
      let (is, stay) = pure_ok _ env s h in
      rw is (inl (refl, ap (λ (x : Session V). x.db.promo_codes) stay))
  reprice-Settles (some id) total env s {r} {s'} h = go (lock_promo_by_id id env s) refl h
    where
      go :
          (out : Result (PromoCode V) × Session V)
          → lock_promo_by_id id env s ≡ out
          → ◌≡◌ {A = Result (Option Uuid × V) × Session V}
              (let (r, t) = out in
                elim r [ ok promo ↦ keep_promo total promo env t | err e ↦ drop_promo id env t ])
              (ok r, s')
          → Settles s.db.promo_codes s'.db.promo_codes (some id) r.0
      go (ok promo, t) e h' =
          let (mine, same) = lock_promo_by_id_found id env s e in
          subst (λ k. Settles s.db.promo_codes s'.db.promo_codes (some k) r.0) mine
            (subst (λ (d : Db V). Settles d.promo_codes s'.db.promo_codes (some promo.id) r.0) same
              (keep_promo-Settles total promo env t h'))
      go (err x, t) e h' =
          let same : t.db ≡ s.db =
            ap (λ (x : Result (PromoCode V) × Session V). x.1.db) (sym e)
            ∙ lock_promo_by_id_same id env s in
          subst (λ (d : Db V). Settles d.promo_codes s'.db.promo_codes (some id) r.0) same
            (drop_promo-Settles id env t h')
