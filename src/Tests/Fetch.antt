-- ===== src/Tests/Fetch.antt =====
-- The plans and the turns of a fetch at concrete inputs.
use go_memcache.Base.{true, ◌*◌, ◌≡◌, refl, [], ◌∷◌, some, codes}
use go_memcache.Base.Int.{pos}
use go_memcache.Errors.{ok}
use go_memcache.Types.{
  RawResponse, ResponseCode, empty_response, GetStatus, LeaseState, ValueState, GetResult,
  no_metadata,
}
use go_memcache.Types.Expiration.{second}
use go_memcache.Wire.{MetaCommand}
use go_memcache.Command.Get.{build_get, zero_get, hit_result, semantic_get, is_empty}
use go_memcache.Fetch.{FetchPlan, read_plan, plan_fetch, turn_of, lead}
use go_memcache.Fetch.Plan.{build_get-plan_fetch}
use go_memcache.Fetch.Lease.{turn_of-semantic_get}
use go_memcache.Fetch.Turns.{IsAllowed, turn_of-IsAllowed}
use go_memcache.Tests.Fixtures.{client}

-- A minute, refreshed in its last five seconds.
abbrev plan : FetchPlan
plan = record { expiration = pos 60; window = pos (5 * second); read = read_plan 0 (some (pos 5)) }

build_get-plan_fetch_example : (m : MetaCommand) × (build_get (codes "k") plan.read ≡ ok m)
unfolding plan_fetch go_memcache.Fetch.plan_window go_memcache.Fetch.is_too_long
    go_memcache.Options.resolve_ttl go_memcache.Options.call_policy
    go_memcache.Options.apply_fetches go_memcache.Types.Expiration.expires_in
    go_memcache.Transport.Pick.nanoseconds
build_get-plan_fetch_example =
    build_get-plan_fetch 0 client.config (pos (60 * second)) (some (pos (5 * second)) ∷ [])
      (codes "k") refl

-- A stale value whose refresh this caller has won.
abbrev stale_win : GetResult
stale_win = record zero_get {
  value = codes "v";
  value_state = ValueState.stale;
  lease = LeaseState.granted;
  metadata = record no_metadata { cas = some 9 };
}

turn_of-IsAllowed_example : IsAllowed stale_win GetStatus.hit (turn_of stale_win GetStatus.hit)
turn_of-IsAllowed_example = turn_of-IsAllowed stale_win GetStatus.hit

-- The placeholder of a lease that this caller has won.
abbrev placeholder : RawResponse
placeholder = record (empty_response ResponseCode.value) {
  won = true;
  metadata = record no_metadata { cas = some 9 };
}

turn_of-semantic_get_example :
    turn_of
      (hit_result (codes "k") plan.read placeholder true)
      (hit_result (codes "k") plan.read placeholder true).status
    ≡ lead 9
unfolding plan_fetch go_memcache.Fetch.plan_window go_memcache.Fetch.is_too_long
    go_memcache.Options.resolve_ttl go_memcache.Options.call_policy
    go_memcache.Options.apply_fetches go_memcache.Types.Expiration.expires_in
    go_memcache.Transport.Pick.nanoseconds semantic_get is_empty
turn_of-semantic_get_example =
    turn_of-semantic_get 0 client.config (pos (60 * second)) (some (pos (5 * second)) ∷ [])
      (codes "k") placeholder {plan = plan} refl refl refl refl refl
