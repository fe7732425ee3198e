-- ===== src/Common/Unique.antt =====
-- Tables in which a column with texts has no text twice: what `UNIQUE` means for a column.
use service_oriented_hw.Common.Lists.{All, All-append, All-keep_if, keep_if}
use service_oriented_hw.Common.Tests.{Bool-cases}
use mathlib.Core.Path.{◌≡◌}
use mathlib.Core.Logic.{inl, inr}
use mathlib.Core.Bool.{Bool, false}
use mathlib.Core.List.{List, [], ◌∷◌, ◌++◌}
use native.Mathlib.Omega.{arith}
use Prim.Native.String.{String}
use text.Mathlib.Text.{◌==◌ as same_text}
use text.Mathlib.TextEquality.{eq_iff}

same_text_comm : (s t : String) → same_text s t ≡ false → same_text t s ≡ false
same_text_comm s t h = ground (arith, eq_iff s t, eq_iff t s)

module _ {A : Type 0} (column : A → String) where
  -- The text stands in no row.
  abbrev pub IsNew : String → List A → Type 0
  IsNew text rows = All (λ row. same_text (column row) text ≡ false) rows

  abbrev pub Unique : List A → Type 0
  Unique [] = Unit
  Unique (row ∷ rows) = IsNew (column row) rows × Unique rows

  pub append-Unique :
      (rows : List A) (row : A) → Unique rows → IsNew (column row) rows → Unique (rows ++ row ∷ [])
  append-Unique [] row u n = (tt, tt)
  append-Unique (first ∷ rows) row u n = (
    All-append (λ other. same_text (column other) (column first) ≡ false) rows (row ∷ []) u.0
        (same_text_comm (column first) (column row) n.0, tt),
    append-Unique rows row u.1 n.1,
  )

  pub keep_if-Unique : (test : A → Bool) (rows : List A) → Unique rows → Unique (keep_if test rows)
  keep_if-Unique test [] u = tt
  keep_if-Unique test (row ∷ rows) u = elim (Bool-cases (test row)) [
    | inl kept ↦ rw kept (
      All-keep_if (λ other. same_text (column other) (column row) ≡ false) test rows u.0,
      keep_if-Unique test rows u.1,
    )
    | inr dropped ↦ rw dropped (keep_if-Unique test rows u.1)
  ]
