-- ===== src/Metrics/Counts.antt =====
-- What the registry shows after requests.
use service_oriented_hw.Common.{
  ℕ, ◌+◌, ◌≡◌, ap, Bool, true, Bool-cases, inl, inr, ◌&&◌, List, [], ◌∷◌, String, leb, ltb, ◌==◌,
  ==_iff, count_if, arith, one_if,
}
use service_oriented_hw.Metrics.{
  Prometheus, IsPrometheus, Registry, Exchange, endpoint_of, error_type, measure, measure_all,
}
use text.Mathlib.Text.{◌==◌ as same_text}
use text.Mathlib.TextEquality.{eq_iff}

module _ {T : Type 0} where
  -- A request of the method to the endpoint, with a status that passes the test.
  abbrev pub matches : String → String → (ℕ → Bool) → Exchange T → Bool
  matches method endpoint test x =
      same_text x.method method && (same_text (endpoint_of x.pattern) endpoint && test x.status)

abbrev pub any_status : ℕ → Bool
any_status status = true

abbrev pub is_client_error : ℕ → Bool
is_client_error status = leb 400 status && ltb status 500

abbrev pub is_server_error : ℕ → Bool
is_server_error status = leb 500 status

module _ {C H T : Type 0} (p : Prometheus C H T) (itoa : ℕ → String) where
  -- From the one registry to the other, the readings for the method and the endpoint have grown by
  -- these requests: those of the status, of client errors, of server errors, and of all.
  pub record Counted (method endpoint : String) (xs : List (Exchange T)) (r r' : Registry C H)
      : Type 0 where
    pub requests :
        (status : ℕ)
        → p.value (method ∷ endpoint ∷ itoa status ∷ []) r'.requests_total
          ≡ p.value (method ∷ endpoint ∷ itoa status ∷ []) r.requests_total
            + count_if (matches method endpoint (λ s. s == status)) xs
    pub client_errors :
        p.value (method ∷ endpoint ∷ "client_error" ∷ []) r'.errors_total
        ≡ p.value (method ∷ endpoint ∷ "client_error" ∷ []) r.errors_total
          + count_if (matches method endpoint is_client_error) xs
    pub server_errors :
        p.value (method ∷ endpoint ∷ "server_error" ∷ []) r'.errors_total
        ≡ p.value (method ∷ endpoint ∷ "server_error" ∷ []) r.errors_total
          + count_if (matches method endpoint is_server_error) xs
    pub durations :
        p.sample_count (method ∷ endpoint ∷ []) r'.request_duration
        ≡ p.sample_count (method ∷ endpoint ∷ []) r.request_duration
          + count_if (matches method endpoint any_status) xs

  -- A request to a known endpoint moves the counter of its status.
  pub measure_requests :
      (laws : IsPrometheus p) (x : Exchange T) (r : Registry C H) {endpoint : String}
      → endpoint_of x.pattern ≡ endpoint
      → p.value (x.method ∷ endpoint ∷ itoa x.status ∷ []) (measure p itoa x r).requests_total
        ≡ p.value (x.method ∷ endpoint ∷ itoa x.status ∷ []) r.requests_total + 1
  unfolding measure
  measure_requests laws x r {endpoint} known = ground (
    arith,
    known,
    eq_iff x.method x.method,
    eq_iff endpoint endpoint,
    eq_iff (itoa x.status) (itoa x.status),
    laws.value_inc (x.method ∷ endpoint ∷ itoa x.status ∷ [])
        (x.method ∷ endpoint ∷ itoa x.status ∷ []) r.requests_total,
  )

  -- A request to a known endpoint moves its counter of server errors by its status.
  pub measure_server_errors :
      (laws : IsPrometheus p) (x : Exchange T) (r : Registry C H) {endpoint : String}
      → endpoint_of x.pattern ≡ endpoint
      → p.value (x.method ∷ endpoint ∷ "server_error" ∷ []) (measure p itoa x r).errors_total
        ≡ p.value (x.method ∷ endpoint ∷ "server_error" ∷ []) r.errors_total
          + one_if (is_server_error x.status)
  unfolding measure error_type
  measure_server_errors laws x r {endpoint} known = ground (
    arith,
    known,
    eq_iff x.method x.method,
    eq_iff endpoint endpoint,
    laws.value_inc (x.method ∷ endpoint ∷ "client_error" ∷ [])
        (x.method ∷ endpoint ∷ "server_error" ∷ []) r.errors_total,
    laws.value_inc (x.method ∷ endpoint ∷ "server_error" ∷ [])
        (x.method ∷ endpoint ∷ "server_error" ∷ []) r.errors_total,
  )

  module _ (laws : IsPrometheus p) (apart : (m n : ℕ) → itoa m ≡ itoa n → m ≡ n) where
    same_status_text : (m n : ℕ) → same_text (itoa m) (itoa n) ≡ (m == n)
    same_status_text m n = elim (Bool-cases (m == n)) [
      | inl same ↦ rw same ((eq_iff (itoa m) (itoa n)).1 (ap (λ k. itoa k) ((==_iff m n).0 same)))
      | inr other ↦ ground (arith, other, eq_iff (itoa m) (itoa n), apart m n)
    ]

    measure-Counted :
        (method endpoint : String) (x : Exchange T) (r : Registry C H)
        → Counted method endpoint (x ∷ []) r (measure p itoa x r)
    unfolding measure error_type
    measure-Counted method endpoint x r = record {
      requests = λ status. ground (
        arith,
        same_status_text x.status status,
        laws.value_inc (x.method ∷ endpoint_of x.pattern ∷ itoa x.status ∷ [])
            (method ∷ endpoint ∷ itoa status ∷ []) r.requests_total,
      );
      client_errors = ground (
        arith,
        laws.value_inc (x.method ∷ endpoint_of x.pattern ∷ "client_error" ∷ [])
            (method ∷ endpoint ∷ "client_error" ∷ []) r.errors_total,
        laws.value_inc (x.method ∷ endpoint_of x.pattern ∷ "server_error" ∷ [])
            (method ∷ endpoint ∷ "client_error" ∷ []) r.errors_total,
      );
      server_errors = ground (
        arith,
        laws.value_inc (x.method ∷ endpoint_of x.pattern ∷ "client_error" ∷ [])
            (method ∷ endpoint ∷ "server_error" ∷ []) r.errors_total,
        laws.value_inc (x.method ∷ endpoint_of x.pattern ∷ "server_error" ∷ [])
            (method ∷ endpoint ∷ "server_error" ∷ []) r.errors_total,
      );
      durations = ground (
        arith,
        laws.sample_count_observe (x.method ∷ endpoint_of x.pattern ∷ []) (method ∷ endpoint ∷ [])
            x.duration r.request_duration,
      );
    }

    -- For every method and endpoint, after requests that are measured one after the other, the
    -- counter of every status has grown by the number of the requests that were answered with it,
    -- that of client errors by those with a status of 400 to 499, that of server errors by those of
    -- 500 or above, and the count of durations by all of them, if `strconv.Itoa` has no text twice
    -- and the client of Prometheus moves the members that it is told to.
    pub measure_all-Counted :
        (method endpoint : String) (xs : List (Exchange T)) (r : Registry C H)
        → Counted method endpoint xs r (measure_all p itoa xs r)
    measure_all-Counted method endpoint [] r = record {
      requests = λ status. omega arith;
      client_errors = omega arith;
      server_errors = omega arith;
      durations = omega arith;
    }
    measure_all-Counted method endpoint (x ∷ xs) r =
        let now = measure-Counted method endpoint x r in
        let later = measure_all-Counted method endpoint xs (measure p itoa x r) in
        record {
          requests = λ status. ground (arith, now.requests status, later.requests status);
          client_errors = ground (arith, now.client_errors, later.client_errors);
          server_errors = ground (arith, now.server_errors, later.server_errors);
          durations = ground (arith, now.durations, later.durations);
        }
