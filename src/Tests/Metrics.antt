-- ===== src/Tests/Metrics.antt =====
-- A registry that keeps the calls on it, and what it shows after some requests.
use service_oriented_hw.Common.{
  ℕ, zero, suc, ◌≡◌, ◌∙◌, sym, refl, ap, List, [], ◌∷◌, String, arith, count_if,
}
use service_oriented_hw.Metrics.{
  Prometheus, IsPrometheus, Registry, Exchange, same_labels, measure_all,
}
use service_oriented_hw.Metrics.Counts.{measure_all-Counted, Counted}

abbrev pub Calls : Type 0
Calls = List (List String)

abbrev pub tally : Prometheus Calls Calls ℕ
tally = record {
  inc = λ labels c. labels ∷ c;
  value = λ labels c. count_if (λ called. same_labels called labels) c;
  observe = λ labels t h. labels ∷ h;
  sample_count = λ labels h. count_if (λ called. same_labels called labels) h;
}

pub tally-IsPrometheus : IsPrometheus tally
tally-IsPrometheus = record {
  value_inc = λ ls ms c. ground arith;
  sample_count_observe = λ ls ms t h. ground arith;
}

-- A number as so many strokes.
abbrev pub strokes : ℕ → String
strokes zero = ""
strokes (suc n) = String.◌∷◌ "|" (strokes n)

abbrev counted : String → ℕ
counted String.[] = 0
counted (String.◌∷◌ c s) = suc (counted s)

counted-strokes : (n : ℕ) → counted (strokes n) ≡ n
counted-strokes zero = refl
counted-strokes (suc n) = ap suc (counted-strokes n)

strokes_apart : (m n : ℕ) → strokes m ≡ strokes n → m ≡ n
strokes_apart m n h = sym (counted-strokes m) ∙ ap (λ s. counted s) h ∙ counted-strokes n

abbrev pub empty_registry : Registry Calls Calls
empty_registry = record { requests_total = []; errors_total = []; request_duration = [] }

abbrev served : Exchange ℕ
served = record { method = "GET"; pattern = "/products"; status = 200; duration = 3 }

abbrev lost : Exchange ℕ
lost = record { method = "GET"; pattern = ""; status = 404; duration = 1 }

measure_all-Counted_example :
    Counted tally strokes "GET" "unknown"
      (served ∷ lost ∷ [])
      empty_registry
      (measure_all tally strokes (served ∷ lost ∷ []) empty_registry)
measure_all-Counted_example =
    measure_all-Counted tally strokes tally-IsPrometheus strokes_apart "GET" "unknown"
      (served ∷ lost ∷ []) empty_registry
