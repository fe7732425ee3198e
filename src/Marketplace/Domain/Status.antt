-- ===== src/Marketplace/Domain/Status.antt =====
-- domain/order.go: the transition table of an order's status, and `CanTransitionTo`.
use service_oriented_hw.Common.{
  ℕ, ◌<◌, ◌≡◌, ◌≢◌, refl, Bool, true, false, Option, none, some, List, [], ◌∷◌, arith,
  if◌then◌else◌,
}
use service_oriented_hw.Marketplace.Domain.{
  OrderStatus, created, payment_pending, paid, shipped, completed, canceled,
}

-- `==` on two statuses.
abbrev pub same_status : OrderStatus → OrderStatus → Bool
same_status created created = true
same_status payment_pending payment_pending = true
same_status paid paid = true
same_status shipped shipped = true
same_status completed completed = true
same_status canceled canceled = true
same_status _ _ = false

-- `validTransitions[s]`, with the key's absence as `none`.
pub valid_transitions : OrderStatus → Option (List OrderStatus)
valid_transitions created = some (payment_pending ∷ canceled ∷ [])
valid_transitions payment_pending = some (paid ∷ canceled ∷ [])
valid_transitions paid = some (shipped ∷ [])
valid_transitions shipped = some (completed ∷ [])
valid_transitions completed = none
valid_transitions canceled = none

-- The loop over `allowed`.
pub any_status : OrderStatus → List OrderStatus → Bool
any_status next [] = false
any_status next (a ∷ allowed) = if same_status a next then true else any_status next allowed

unfoldable pub can_transition_to : OrderStatus → OrderStatus → Bool
unfolding valid_transitions any_status
can_transition_to s next = elim (valid_transitions s) [
  | none ↦ false
  | some allowed ↦ any_status next allowed
]

-- `order.Status != StatusCreated && order.Status != StatusPaymentPending` of `Cancel`, negated.
abbrev pub cancellable : OrderStatus → Bool
cancellable s = if same_status s created then true else same_status s payment_pending

-- One move that the table allows, or several.
pub data Moves (s : OrderStatus) : OrderStatus → Type 0 where
  one : {t : OrderStatus} → can_transition_to s t ≡ true → Moves s t
  further : {t u : OrderStatus} → Moves s t → can_transition_to t u ≡ true → Moves s u

-- How far an order has come.
abbrev pub stage : OrderStatus → ℕ
stage created = 0
stage payment_pending = 1
stage paid = 2
stage shipped = 3
stage completed = 4
stage canceled = 4

can_transition_to-stage : (s t : OrderStatus) → can_transition_to s t ≡ true → stage s < stage t
unfolding can_transition_to
can_transition_to-stage created t h = ground arith
can_transition_to-stage payment_pending t h = ground arith
can_transition_to-stage s t h = ground arith

-- With every move the stage rises.
Moves-stage : {s t : OrderStatus} → Moves s t → stage s < stage t
Moves-stage {s = s} (one {t} move) = can_transition_to-stage s t move
Moves-stage (further {t} {u} m move) =
    ground (arith, Moves-stage m, can_transition_to-stage t u move)

-- No move and no chain of moves leads a status back to itself, and what moves have led to does not
-- lead back to where they started: a status that an order has left never comes again.
pub status_never_returns :
    (s t : OrderStatus) → Moves s t → (s ≢ t) × ((u : OrderStatus) → Moves t u → s ≢ u)
status_never_returns s t m = (
  λ same. ground (arith, Moves-stage m, same),
  λ u back same. ground (arith, Moves-stage m, Moves-stage back, same),
)

-- The statuses in which `Cancel` accepts an order are those from which the table allows a move to
-- CANCELED.
pub cancellable-eq-can_transition_to :
    (s : OrderStatus) → cancellable s ≡ can_transition_to s canceled
unfolding can_transition_to
cancellable-eq-can_transition_to created = refl
cancellable-eq-can_transition_to payment_pending = refl
cancellable-eq-can_transition_to paid = refl
cancellable-eq-can_transition_to shipped = refl
cancellable-eq-can_transition_to completed = refl
cancellable-eq-can_transition_to canceled = refl
