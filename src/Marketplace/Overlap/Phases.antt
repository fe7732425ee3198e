-- ===== src/Marketplace/Overlap/Phases.antt =====
-- `Create` is its guards and then the rest.
use service_oriented_hw.Common.{◌≡◌, refl, ap, sym, ◌∙◌, Option, List, String}
use service_oriented_hw.Common.Int.{ℤ}
use service_oriented_hw.Common.Float.{Float64}
use service_oriented_hw.Marketplace.Domain.{
  Uuid, OrderItemRequest, Order, create_order, order_limit_exceeded, active_order_exists,
}
use service_oriented_hw.Marketplace.Session.{Env, Session, Result, ok, err, M, ◌>>=◌, ◌>>◌, fail_if}
use service_oriented_hw.Marketplace.Repository.Orders.{rate_limit_check, has_active_order}
use service_oriented_hw.Marketplace.Orders.Usecase.{create_body}
use service_oriented_hw.Marketplace.Overlap.{create_guards, create_rest}

module _ {V : Type 0} where
  bind_assoc :
      {A B C : Type 0} (m : M V A) (f : A → M V B) (g : B → M V C)
      → (m >>= f) >>= g ≡ m >>= λ a. f a >>= g
  unfolding ◌>>=◌
  bind_assoc {A} {B} {C} m f g = λ i env s. go env (m env s) i
    where
      after : {X Y : Type 0} → (X → M V Y) → Env → Result X × Session V → Result Y × Session V
      after k env (r, t) = elim r [ ok a ↦ k a env t | err e ↦ (err e, t) ]

      go :
          (env : Env) (out : Result A × Session V)
          → after g env (after f env out) ≡ after (λ a. f a >>= g) env out
      go env (ok a, t) = refl
      go env (err e, t) = refl

module _ {V : Type 0} ⦃f : Float64 V⦄ where
  -- The body of `Create` runs the two parts one after the other.
  pub create_phases :
      (limit : ℤ) (user_id : Uuid) (reqs : List OrderItemRequest) (code : Option String) (env : Env)
      (s : Session V)
      → create_body limit user_id reqs code env s
        ≡ (create_guards limit user_id >>= λ _. create_rest user_id reqs code) env s
  unfolding create_body create_guards create_rest
  create_phases limit user_id reqs code env s =
      let rest : Unit {0} → M V (Order V) = λ _. create_rest user_id reqs code in
      let K : M V (Unit {0}) = has_active_order user_id >>= λ h. fail_if h active_order_exists in
      let inner : ◌≡◌ {A = M V (Order V)} (K >>= rest)
          (has_active_order user_id >>= λ h. fail_if h active_order_exists >>= rest) =
        bind_assoc (has_active_order user_id) (λ h. fail_if h active_order_exists) rest in
      ap (λ (m : M V (Order V)). m env s)
        (sym (
          bind_assoc (rate_limit_check user_id create_order limit)
            (λ l. fail_if l order_limit_exceeded >> K) rest
          ∙ ap (λ k. rate_limit_check user_id create_order limit >>= k)
              (λ i l.
                (bind_assoc (fail_if l order_limit_exceeded) (λ _. K) rest
                    ∙ ap (λ k. fail_if l order_limit_exceeded >>= λ _. k) inner)
                  i)))
