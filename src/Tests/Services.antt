-- ===== src/Tests/Services.antt =====
-- The two services together at a concrete input: the first attempt passes its deadline, the second
-- one reaches user-service.
use service_oriented_hw.Common.{◌≡◌, refl, none, String, arith, ◌==◌, if◌then◌else◌}
use service_oriented_hw.Common.Int.{pos}
use service_oriented_hw.Marketplace.UserClient.{
  Network, timed_out, do_validate, verify_access_token as ask_user_service, Fails,
}
use service_oriented_hw.Marketplace.Auth.{auth}
use service_oriented_hw.UserService.Auth.{verify_access_token}
use service_oriented_hw.UserService.Handlers.{Response, validate}
use service_oriented_hw.Services.{reply_of, step_of, auth_verdict}
use service_oriented_hw.Tests.UserService.{toy, service}
use Prim.Native.String

abbrev verdict_on : String → Response
verdict_on token = validate toy service (pos 30) (String.◌++◌ "Bearer " token)

abbrev slow_network : String → Network
slow_network token = record {
  reply =
      λ n. if n == 0 then timed_out else reply_of (verdict_on token).status (verdict_on token).body;
  interrupted = λ n. none;
}

first-Fails : Fails (slow_network "ann's") 0 1
unfolding do_validate
first-Fails = (refl, refl, tt)

auth_verdict_example :
    auth (λ t. (ask_user_service (slow_network t)).0) (String.◌++◌ "Bearer " "ann's")
    ≡ step_of (verify_access_token toy service (pos 30) "ann's")
auth_verdict_example =
    auth_verdict toy service slow_network "ann's" (pos 30) 1 (omega arith) first-Fails refl
