-- ===== src/Common/Arranged.antt =====
-- Lists that are arranged by a comparison: a list has one arrangement only, if no two of its members
-- compare as equal. This gives the meaning of `ORDER BY`.
use mathlib.Core.Path.{◌≡◌, refl, ap, ap₂, sym, subst, ◌∙◌}
use mathlib.Core.Bool.{Bool, true, false, ◌&&◌, ◌||◌}
use mathlib.Core.Logic.{◌⊎◌, inl, inr}
use mathlib.Core.List.{List, [], ◌∷◌}
use mathlib.Core.List.{Permᴰ}
use mathlib.Core.List.Permᴰ
use service_oriented_hw.Common.Lists.{All, All-map, length}
use Prim.Native.Nat.{suc}
use native.Mathlib.Omega.{arith}

module _ {A : Type 0} where
  -- What holds of all members of the one holds of all members of the other.
  abbrev SameMembers : List A → List A → Type 1
  SameMembers l r = (P : A → Type 0) → All P l → All P r

  pub All-Permᴰ : (P : A → Type 0) {l r : List A} → Permᴰ l r → All P l → All P r
  All-Permᴰ P Permᴰ.nil h = tt
  All-Permᴰ P (Permᴰ.cons e p) h = (subst P e h.0, All-Permᴰ P p h.1)
  All-Permᴰ P (Permᴰ.swap e e') h = (subst P e' h.1.0, (subst P e h.0, h.1.1))
  All-Permᴰ P (Permᴰ.trans p q) h = All-Permᴰ P q (All-Permᴰ P p h)

pub length-Permᴰ : {A : Type 0} {l r : List A} → Permᴰ l r → length l ≡ length r
length-Permᴰ Permᴰ.nil = refl
length-Permᴰ (Permᴰ.cons e p) = ap suc (length-Permᴰ p)
length-Permᴰ (Permᴰ.swap e e') = refl
length-Permᴰ (Permᴰ.trans p q) = length-Permᴰ p ∙ length-Permᴰ q

and_false_comm : (a b : Bool) → (a && b) ≡ false → (b && a) ≡ false
and_false_comm a b h = ground arith

both : (a : Bool) → (a || a) ≡ true → a ≡ true
both a h = ground arith

neither : (a b : Bool) → (a || b) ≡ true → a ≡ false → b ≡ false → ⊥
neither a b h f g = ground arith

module _ {A : Type 0} (first : A → A → Bool) where
  -- Whoever stands before another may do so.
  abbrev pub Arranged : List A → Type 0
  Arranged [] = Unit
  Arranged (x ∷ xs) = All (λ y. first x y ≡ true) xs × Arranged xs

  -- No two compare as equal.
  abbrev pub NoTies : List A → Type 0
  NoTies [] = Unit
  NoTies (x ∷ xs) = All (λ y. (first x y && first y x) ≡ false) xs × NoTies xs

  -- The other one may not stand before.
  abbrev Strict : List A → Type 0
  Strict [] = Unit
  Strict (x ∷ xs) = All (λ y. first y x ≡ false) xs × Strict xs

  pub NoTies-Permᴰ : {l r : List A} → Permᴰ l r → NoTies l → NoTies r
  NoTies-Permᴰ Permᴰ.nil h = tt
  NoTies-Permᴰ (Permᴰ.cons {l₂} e p) h = (
    subst (λ x. All (λ y. (first x y && first y x) ≡ false) l₂) e (All-Permᴰ _ p h.0),
    NoTies-Permᴰ p h.1,
  )
  NoTies-Permᴰ (Permᴰ.swap {a} {b} {b'} {l} e e') h =
      subst (λ x. NoTies (x ∷ b' ∷ l)) e'
        (subst (λ x. NoTies (b ∷ x ∷ l)) e
          ((and_false_comm (first a b) (first b a) h.0.0, h.1.0), (h.0.1, h.1.1)))
  NoTies-Permᴰ (Permᴰ.trans p q) h = NoTies-Permᴰ q (NoTies-Permᴰ p h)

  All-strict :
      (x : A) (xs : List A)
      → All (λ y. first x y ≡ true) xs
      → All (λ y. (first x y && first y x) ≡ false) xs
      → All (λ y. first y x ≡ false) xs
  All-strict x [] a n = tt
  All-strict x (y ∷ ys) a n = (ground (arith, a.0, n.0), All-strict x ys a.1 n.1)

  Arranged-Strict : (l : List A) → Arranged l → NoTies l → Strict l
  Arranged-Strict [] a n = tt
  Arranged-Strict (x ∷ xs) a n = (All-strict x xs a.0 n.0, Arranged-Strict xs a.1 n.1)

  -- The head of the one list is the head of the other one, or may not stand before it.
  head_or_below :
      (a b : A) (l r : List A)
      → SameMembers (b ∷ r) (a ∷ l)
      → Strict (b ∷ r)
      → (a ≡ b) ⊎ (first a b ≡ false)
  head_or_below a b l r same s =
      (same (λ x. (x ≡ b) ⊎ (first x b ≡ false)) (inl refl, All-map _ _ (λ y h. inr h) r s.0)).0

  -- Without the head, the members are still the same.
  tails_same :
      (a : A) (l r : List A)
      → SameMembers (a ∷ l) (a ∷ r)
      → first a a ≡ true
      → Strict (a ∷ r)
      → SameMembers l r
  tails_same a l r same self s P h =
      through r s.0
        (same (λ x. (first x a ≡ false) → P x)
          (λ below. absurd (cc (sym self ∙ below)), All-map _ _ (λ x p below. p) l h)).1
    where
      through :
          (r : List A)
          → All (λ y. first y a ≡ false) r
          → All (λ x. (first x a ≡ false) → P x) r
          → All P r
      through [] below h = tt
      through (x ∷ xs) below h = (h.0 below.0, through xs below.1 h.1)

  sole_list :
      ((x y : A) → (first x y || first y x) ≡ true)
      → (l r : List A) → Strict l
      → Strict r
      → SameMembers l r
      → SameMembers r l
      → l ≡ r
  sole_list total [] [] sl sr there back = refl
  sole_list total [] (b ∷ r) sl sr there back = absurd (there (λ x. ⊥) tt).0
  sole_list total (a ∷ l) [] sl sr there back = absurd (back (λ x. ⊥) tt).0
  sole_list total (a ∷ l) (b ∷ r) sl sr there back =
      let self : first a a ≡ true = both (first a a) (total a a) in
      elim (head_or_below a b l r back sr) [
        | inl is ↦
            let sr' : Strict (a ∷ r) = subst (λ x. Strict (x ∷ r)) (sym is) sr in
            let there' : SameMembers (a ∷ l) (a ∷ r) =
              λ P h. subst (λ x. All P (x ∷ r)) (sym is) (there P h) in
            let back' : SameMembers (a ∷ r) (a ∷ l) =
              λ P h. back P (subst (λ x. All P (x ∷ r)) is h) in
            ap₂ ◌∷◌ is (
              sole_list total l r sl.1 sr.1 (tails_same a l r there' self sr')
                (tails_same a r l back' self sl))
        | inr below ↦ elim (head_or_below b a r l there sl) [
          | inl is ↦ absurd (cc (sym self ∙ subst (λ x. first a x ≡ false) is below))
          | inr above ↦ absurd (neither (first a b) (first b a) (total a b) below above)
        ]
      ]

  -- Rows without ties have one arrangement.
  pub sole_order :
      ((x y : A) → (first x y || first y x) ≡ true)
      → {rows l r : List A} → NoTies rows
      → Permᴰ l rows
      → Permᴰ r rows
      → Arranged l
      → Arranged r
      → l ≡ r
  sole_order total {rows} {l} {r} none pl pr al ar =
      let there = Permᴰ.trans pl (Permᴰ.symm pr) in
      sole_list total l r (Arranged-Strict l al (NoTies-Permᴰ (Permᴰ.symm pl) none))
        (Arranged-Strict r ar (NoTies-Permᴰ (Permᴰ.symm pr) none)) (λ P h. All-Permᴰ P there h)
        (λ P h. All-Permᴰ P (Permᴰ.symm there) h)
