-- ===== src/Common/Table.antt =====
-- Tables of rows with a number for a key: the first row with a key, and an update of every row
-- with a key. These give the meaning of `SELECT ... WHERE id=$1` and `UPDATE ... WHERE id=$1`.
use service_oriented_hw.Common.Tests.{◌==◌, if◌then◌else◌, ==_iff, Bool-cases}
use service_oriented_hw.Common.Lists.{count_if, one_if}
use Prim.Native.Nat.{ℕ, ◌+◌}
use mathlib.Core.Path.{◌≡◌, refl, ◌∙◌}
use mathlib.Core.Logic.{◌≢◌, inl, inr}
use mathlib.Core.Bool.{Bool, true, false}
use mathlib.Core.Option
use mathlib.Core.Option.{Option, none, some}
use mathlib.Core.List.{List, [], ◌∷◌, ◌++◌}
use native.Mathlib.Omega.{arith}

module _ {ℓ} {A : Type ℓ} (key : A → ℕ) where
  abbrev pub find_by : ℕ → List A → Option A
  find_by k [] = none
  find_by k (x ∷ xs) = if key x == k then some x else find_by k xs

  abbrev pub modify_by : ℕ → (A → A) → List A → List A
  modify_by k f [] = []
  modify_by k f (x ∷ xs) = (if key x == k then f x else x) ∷ modify_by k f xs

  pub find_by-modify_by :
      (j k : ℕ) (f : A → A) (xs : List A)
      → ((x : A) → key (f x) ≡ key x)
      → find_by j (modify_by k f xs)
        ≡ (if k == j then Option.map f (find_by j xs) else find_by j xs)
  find_by-modify_by j k f [] keeps = ground arith
  find_by-modify_by j k f (x ∷ xs) keeps = ground (arith, keeps x, find_by-modify_by j k f xs keeps)

  pub find_by-append :
      (j : ℕ) (xs ys : List A) → find_by j xs ≡ none → find_by j (xs ++ ys) ≡ find_by j ys
  find_by-append j [] ys h = refl
  find_by-append j (x ∷ xs) ys h = ground (arith, find_by-append j xs ys)

  pub find_by-append_found :
      (j : ℕ) (xs ys : List A) → find_by j xs ≢ none → find_by j (xs ++ ys) ≡ find_by j xs
  find_by-append_found j [] ys h = absurd (h refl)
  find_by-append_found j (x ∷ xs) ys h = ground (arith, find_by-append_found j xs ys)

  pub key_of_found : (k : ℕ) (xs : List A) (x : A) → find_by k xs ≡ some x → key x ≡ k
  key_of_found k [] x h = cc
  key_of_found k (y ∷ xs) x h = ground (arith, key_of_found k xs x)

  -- Some row has the key.
  abbrev pub has_key : ℕ → List A → Bool
  has_key k xs = elim (find_by k xs) [ none ↦ false | some _ ↦ true ]

  pub has_key-modify_by :
      (j k : ℕ) (f : A → A) (xs : List A)
      → ((x : A) → key (f x) ≡ key x)
      → has_key j (modify_by k f xs) ≡ has_key j xs
  has_key-modify_by j k f xs keeps = ground (arith, find_by-modify_by j k f xs keeps)

  pub find_of_has_key :
      (k : ℕ) (xs : List A) → has_key k xs ≡ true → (x : A) × (find_by k xs ≡ some x)
  find_of_has_key k xs h = ground arith

  -- No two rows have one key.
  abbrev pub Distinct : List A → Type 0
  Distinct [] = Unit
  Distinct (x ∷ xs) = (has_key (key x) xs ≡ false) × Distinct xs

  pub has_key-append :
      (j : ℕ) (xs : List A) (y : A)
      → has_key j (xs ++ y ∷ []) ≡ (if has_key j xs then true else key y == j)
  has_key-append j [] y = ground arith
  has_key-append j (x ∷ xs) y = ground (arith, has_key-append j xs y)

  pub append-Distinct :
      (xs : List A) (y : A) → Distinct xs → has_key (key y) xs ≡ false → Distinct (xs ++ y ∷ [])
  append-Distinct [] y d new = (refl, tt)
  append-Distinct (x ∷ xs) y d new = (
    ground (arith, has_key-append (key x) xs y, ==_iff (key y) (key x)),
    append-Distinct xs y d.1 (ground arith),
  )

  same_key :
      (k : ℕ) (f : A → A) (x : A)
      → ((y : A) → key (f y) ≡ key y)
      → (P : ℕ → Type 0) → P (key x)
      → P (key (if key x == k then f x else x))
  same_key k f x keeps P h = elim (Bool-cases (key x == k)) [
    | inl mine ↦ rw (mine, keeps x) h
    | inr other ↦ rw other h
  ]

  pub modify_by-Distinct :
      (k : ℕ) (f : A → A) (xs : List A)
      → ((x : A) → key (f x) ≡ key x)
      → Distinct xs
      → Distinct (modify_by k f xs)
  modify_by-Distinct k f [] keeps d = tt
  modify_by-Distinct k f (x ∷ xs) keeps d = (
    same_key k f x keeps (λ j. has_key j (modify_by k f xs) ≡ false)
        (has_key-modify_by (key x) k f xs keeps ∙ d.0),
    modify_by-Distinct k f xs keeps d.1,
  )

  missing_modify_by :
      (k : ℕ) (f : A → A) (xs : List A) → has_key k xs ≡ false → modify_by k f xs ≡ xs
  missing_modify_by k f [] h = refl
  missing_modify_by k f (x ∷ xs) h = ground (arith, missing_modify_by k f xs)

  -- An update of the one row with a key changes a count by that row alone.
  pub count_if-modify_by :
      (p : A → Bool) (k : ℕ) (f : A → A) (xs : List A) (x : A)
      → Distinct xs
      → find_by k xs ≡ some x
      → count_if p (modify_by k f xs) + one_if (p x) ≡ count_if p xs + one_if (p (f x))
  count_if-modify_by p k f [] x d h = cc
  count_if-modify_by p k f (y ∷ ys) x d h = elim (Bool-cases (key y == k)) [
    | inl mine ↦
        let at_k = (==_iff (key y) k).0 mine in
        let gone = missing_modify_by k f ys (rw (← at_k) d.0) in
        let is_x : y ≡ x = ground (arith, h) in rw (mine, gone, is_x) (ground arith)
    | inr other ↦ rw other (ground (arith, count_if-modify_by p k f ys x d.1))
  ]
