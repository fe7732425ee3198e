-- ===== src/Metrics.antt =====
-- services/marketplace-api/internal/metrics/metrics.go and its equal in services/user-service: the
-- registry, and what internal/middleware/metrics.go of both services does to it for a request that
-- was answered. The vectors of the Prometheus client and `strconv.Itoa` are parameters.
pub mod Counts
use service_oriented_hw.Common.{
  ℕ, ◌+◌, ◌≡◌, Bool, true, false, ◌&&◌, Option, none, some, List, [], ◌∷◌, String, leb,
  if◌then◌else◌,
}
use text.Mathlib.Text.{◌==◌ as same_text}

-- A counter vector `C` and a histogram vector `H` for durations in `T`. A member of a vector is named
-- by the values of its labels, in the order of the vector's labels.
pub record Prometheus (C H T : Type 0) : Type 0 where
  pub inc : List String → C → C
  pub value : List String → C → ℕ
  pub observe : List String → T → H → H
  pub sample_count : List String → H → ℕ

abbrev pub same_labels : List String → List String → Bool
same_labels [] [] = true
same_labels (l ∷ ls) (m ∷ ms) = same_text l m && same_labels ls ms
same_labels _ _ = false

-- A call on one member of a vector moves its count by one, and no other member's.
pub record IsPrometheus {C H T : Type 0} (p : Prometheus C H T) : Type 0 where
  pub value_inc :
      (ls ms : List String) (c : C)
      → p.value ms (p.inc ls c) ≡ (if same_labels ls ms then p.value ms c + 1 else p.value ms c)
  pub sample_count_observe :
      (ls ms : List String) (t : T) (h : H)
      → p.sample_count ms (p.observe ls t h)
        ≡ (if same_labels ls ms then p.sample_count ms h + 1 else p.sample_count ms h)

pub record Registry (C H : Type 0) : Type 0 where
  pub requests_total : C
  pub errors_total : C
  pub request_duration : H

-- A request that was answered: its method, the pattern of the route that chi matched, which is empty
-- if there is none, the status and the time taken.
pub record Exchange (T : Type 0) : Type 0 where
  pub method : String
  pub pattern : String
  pub status : ℕ
  pub duration : T

-- if pattern == "" { pattern = "unknown" }
abbrev pub endpoint_of : String → String
endpoint_of pattern = if same_text pattern "" then "unknown" else pattern

-- The arms of the `switch`.
unfoldable pub error_type : ℕ → Option String
error_type status =
    if leb 500 status
    then some "server_error"
    else if leb 400 status
    then some "client_error"
    else none

module _ {C H T : Type 0} (p : Prometheus C H T) (itoa : ℕ → String) where
  abbrev pub count_error : Exchange T → C → Option String → C
  count_error x errors none = errors
  count_error x errors (some kind) = p.inc (x.method ∷ endpoint_of x.pattern ∷ kind ∷ []) errors

  unfoldable pub measure : Exchange T → Registry C H → Registry C H
  measure x r = record {
    requests_total = p.inc (x.method ∷ endpoint_of x.pattern ∷ itoa x.status ∷ []) r.requests_total;
    errors_total = count_error x r.errors_total (error_type x.status);
    request_duration =
        p.observe (x.method ∷ endpoint_of x.pattern ∷ []) x.duration r.request_duration;
  }

  -- The requests in the order in which they come to be measured.
  abbrev pub measure_all : List (Exchange T) → Registry C H → Registry C H
  measure_all [] r = r
  measure_all (x ∷ xs) r = measure_all xs (measure x r)
