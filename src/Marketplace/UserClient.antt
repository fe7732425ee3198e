-- ===== src/Marketplace/UserClient.antt =====
-- services/marketplace-api/internal/clients/userclient.go: the call of user-service that checks an
-- access token, and its retry. What the
-- HTTP client gives for an attempt is a `Reply`; the pause between two attempts may be cut short.
use service_oriented_hw.Common.{
  ℕ, zero, suc, ◌+◌, ◌≤◌, ◌≡◌, refl, ◌∙◌, Bool, true, false, Option, none, some, List, [], ◌∷◌,
  String, ◌==◌, if◌then◌else◌, leb, length, arith,
}
use service_oriented_hw.Marketplace.Domain.{
  UserClaims, Error, token_invalid, token_expired, auth_unavailable, internal,
}
use service_oriented_hw.Marketplace.Session.{Result, ok, err}
use text.Mathlib.Text.{◌==◌ as same_text}

-- The request cannot be built, the call passes its deadline or fails otherwise, or there is a
-- response: its status, the claims that its body decodes to, and its `error_code`.
pub data Reply : Type 0 where
  not_built timed_out no_connection : Reply
  response : (status : ℕ) (claims : Option UserClaims) (error_code : String) → Reply

-- The label of the counter.
pub data Outcome : Type 0 where
  success client_error server_error timeout unreachable : Outcome

abbrev pub decoded : Option UserClaims → Result UserClaims × Outcome
decoded none = (err auth_unavailable, server_error)
decoded (some claims) = (ok claims, success)

unfoldable pub do_validate : Reply → Result UserClaims × Outcome
do_validate not_built = (err internal, client_error)
do_validate timed_out = (err auth_unavailable, timeout)
do_validate no_connection = (err auth_unavailable, unreachable)
do_validate (response status claims error_code) =
    if status == 200
    then decoded claims
    else if status == 401
    then (if same_text error_code "TOKEN_EXPIRED"
        then (err token_expired, client_error)
        else (err token_invalid, client_error))
    else if leb 500 status
    then (err auth_unavailable, server_error)
    else (err token_invalid, client_error)

-- The errors that are not retried.
abbrev pub is_final : Error → Bool
is_final token_invalid = true
is_final token_expired = true
is_final _ = false

-- What the attempts meet: the replies, and after an attempt the error of a context that is done.
pub record Network : Type 0 where
  pub reply : ℕ → Reply
  pub interrupted : ℕ → Option Error

abbrev pub Verdict : Type 0
Verdict = Result UserClaims × List Outcome

-- Behind an attempt that failed with an error that is retried: the pause, and the attempts left.
abbrev pub after_pause : Outcome → Option Error → Verdict → Verdict
after_pause outcome (some e) rest = (err e, outcome ∷ [])
after_pause outcome none (r, outcomes) = (r, outcome ∷ outcomes)

-- The end of a round: an answer and a final error return; any other error goes on to `rest`.
abbrev pub conclude : Result UserClaims × Outcome → (Error → Verdict) → Verdict
conclude (ok claims, outcome) rest = (ok claims, outcome ∷ [])
conclude (err e, outcome) rest = if is_final e then (err e, outcome ∷ []) else rest e

-- The loop of `VerifyAccessTokenCtx` from an attempt, with the number of retries left. The outcomes
-- are those that the counter is given, in order.
unfoldable pub verify_from : Network → ℕ → ℕ → Verdict
verify_from net zero attempt =
    conclude (do_validate (net.reply attempt))
      (λ e. (err e, (do_validate (net.reply attempt)).1 ∷ []))
verify_from net (suc left) attempt = conclude (do_validate (net.reply attempt)) (λ e.
    after_pause (do_validate (net.reply attempt)).1 (net.interrupted attempt)
      (verify_from net left (suc attempt)))

-- `VerifyAccessToken` of a client that `NewUserClient` made: `maxRetries` is 1.
unfoldable pub verify_access_token : Network → Verdict
verify_access_token net = verify_from net 1 0

-- The loop returns on such a result: claims, or an error that is not retried.
abbrev pub is_decisive : Result UserClaims → Bool
is_decisive (ok claims) = true
is_decisive (err e) = is_final e

-- So many attempts in a row, from one on, are not decisive, and no pause behind them is cut short.
abbrev pub Fails : Network → ℕ → ℕ → Type 0
Fails net attempt zero = Unit
Fails net attempt (suc n) =
    (is_decisive (do_validate (net.reply attempt)).0 ≡ false)
    × (net.interrupted attempt ≡ none)
    × Fails net (suc attempt) n

conclude_decisive :
    (v : Result UserClaims × Outcome) (rest : Error → Verdict)
    → is_decisive v.0 ≡ true
    → conclude v rest ≡ (v.0, v.1 ∷ [])
conclude_decisive (ok claims, outcome) rest h = refl
conclude_decisive (err e, outcome) rest h = rw h

conclude_indecisive :
    (v : Result UserClaims × Outcome) (rest : Verdict)
    → is_decisive v.0 ≡ false
    → conclude v (λ e. rest) ≡ rest
conclude_indecisive (ok claims, outcome) rest h = cc
conclude_indecisive (err e, outcome) rest h = rw h

verify_from_decisive :
    (net : Network) (left attempt : ℕ)
    → is_decisive (do_validate (net.reply attempt)).0 ≡ true
    → verify_from net left attempt
      ≡ ((do_validate (net.reply attempt)).0, (do_validate (net.reply attempt)).1 ∷ [])
unfolding verify_from
verify_from_decisive net zero attempt h = conclude_decisive (do_validate (net.reply attempt)) _ h
verify_from_decisive net (suc left) attempt h =
    conclude_decisive (do_validate (net.reply attempt)) _ h

verify_from_retried :
    (net : Network) (left attempt : ℕ)
    → is_decisive (do_validate (net.reply attempt)).0 ≡ false
    → net.interrupted attempt ≡ none
    → verify_from net (suc left) attempt ≡ (
      (verify_from net left (suc attempt)).0,
      (do_validate (net.reply attempt)).1 ∷ (verify_from net left (suc attempt)).1,
    )
unfolding verify_from
verify_from_retried net left attempt soft running =
    conclude_indecisive (do_validate (net.reply attempt)) _ soft ∙ rw running

-- If some attempts fail and are retried, as many as there are retries at most, and the reply to the
-- next one is decisive, then the verdict is that reply's, and the counter is given one outcome for
-- each attempt made.
pub verify_from_verdict :
    (net : Network) (left attempt n : ℕ) (k : ℕ)
    → n ≤ left
    → k ≡ attempt + n
    → Fails net attempt n
    → is_decisive (do_validate (net.reply k)).0 ≡ true
    → ((verify_from net left attempt).0 ≡ (do_validate (net.reply k)).0)
      × (length (verify_from net left attempt).1 ≡ n + 1)
verify_from_verdict net left attempt zero k room at fails final =
    let here : k ≡ attempt = omega arith in
    let e = verify_from_decisive net left k final in rw (← here, e) (refl, omega arith)
verify_from_verdict net zero attempt (suc n) k room at fails final = absurd (omega arith)
verify_from_verdict net (suc left) attempt (suc n) k room at (soft, running, fails) final =
    let (r, count) =
      verify_from_verdict net left (suc attempt) n k (omega arith) (omega arith) fails final in
    let e = verify_from_retried net left attempt soft running in
    (rw e r, rw e (omega (arith, count)))

concluded_once :
    (v : Result UserClaims × Outcome)
    → (1 ≤ length (conclude v (λ e. (err e, v.1 ∷ []))).1)
      × (length (conclude v (λ e. (err e, v.1 ∷ []))).1 ≤ 1)
concluded_once (ok claims, outcome) = omega arith
concluded_once (err e, outcome) = ground arith

paused_bounded :
    (outcome : Outcome) (stop : Option Error) (rest : Verdict) (n : ℕ)
    → (1 ≤ length rest.1) × (length rest.1 ≤ n)
    → (1 ≤ length (after_pause outcome stop rest).1)
      × (length (after_pause outcome stop rest).1 ≤ n + 1)
paused_bounded outcome (some e) (r, outcomes) n b = omega arith
paused_bounded outcome none (r, outcomes) n b = omega arith

concluded_bounded :
    (v : Result UserClaims × Outcome) (rest : Verdict) (n : ℕ)
    → 1 ≤ n
    → (1 ≤ length rest.1) × (length rest.1 ≤ n)
    → (1 ≤ length (conclude v (λ e. rest)).1) × (length (conclude v (λ e. rest)).1 ≤ n)
concluded_bounded (ok claims, outcome) rest n h b = omega arith
concluded_bounded (err e, outcome) rest n h b = ground arith

-- The loop ends after one attempt at least and one more than the retries left at most, whatever the
-- network does: the counter is given one outcome for each.
pub verify_from_bounded :
    (net : Network) (left attempt : ℕ)
    → (1 ≤ length (verify_from net left attempt).1)
      × (length (verify_from net left attempt).1 ≤ left + 1)
unfolding verify_from
verify_from_bounded net zero attempt = concluded_once (do_validate (net.reply attempt))
verify_from_bounded net (suc left) attempt =
    let rest = verify_from_bounded net left (suc attempt) in
    let paused =
      paused_bounded (do_validate (net.reply attempt)).1 (net.interrupted attempt)
        (verify_from net left (suc attempt)) (left + 1) rest in
    let both =
      concluded_bounded (do_validate (net.reply attempt))
        (after_pause (do_validate (net.reply attempt)).1 (net.interrupted attempt)
          (verify_from net left (suc attempt)))
        (left + 1 + 1) (omega arith) paused in
    omega (arith, both.0, both.1)
