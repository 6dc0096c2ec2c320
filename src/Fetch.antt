-- ===== src/Fetch.antt =====
-- fetch.go: what a `Fetch` resolves before it sends, what it makes of a read, and what the caller that
-- holds a lease does with it. The loader is a parameter, an action over the world. The flights that
-- merge the callers of a process are not here.
pub mod Plan
pub mod Turns
pub mod Lead
pub mod Lease
use go_memcache.Base.{
  ℕ, ◌*◌, Bool, true, false, not, ◌&&◌, List, Option, none, some, Bytes, leb, if◌then◌else◌,
}
use go_memcache.Base.Int.{pos, is_positive}
use go_memcache.Errors.{
  plain, Result, ok, ◌>>=◌, ◌>>◌, refuse_if, refresh_ahead_not_positive, refresh_ahead_too_long,
}
use go_memcache.Types.{Seconds, GetStatus, LeaseState, GetResult, MetaGetOptions, no_get_options}
use go_memcache.Types.Expiration.{second, expires_in}
use go_memcache.Options.{Config, Duration, call_policy, apply_fetches, resolve_ttl}
use go_memcache.Command.Get.{is_empty}
use go_memcache.Transport.Pick.{nanoseconds}

-- `fetchPlan`.
pub record FetchPlan : Type 0 where
  pub expiration : Seconds
  pub window : Duration
  pub read : MetaGetOptions

-- `fetchLeaseTTL`.
abbrev pub fetch_lease_ttl : Duration
fetch_lease_ttl = pos (30 * second)

-- `ttl > 0 && *policy.refreshAhead >= ttl`, for a refresh ahead that is positive.
unfoldable pub is_too_long : Duration → Duration → Bool
unfolding nanoseconds
is_too_long ttl ahead = is_positive ttl && leb (nanoseconds ttl) (nanoseconds ahead)

abbrev pub read_plan : ℕ → Option Seconds → MetaGetOptions
read_plan now before = record no_get_options {
  return_cas = true;
  vivify_ttl = some (expires_in now fetch_lease_ttl);
  refresh_before = before;
}

-- The rest of `planFetch` behind the TTL, from the policy's refresh ahead.
unfoldable pub plan_window : ℕ → Duration → Seconds → Option Duration → Result FetchPlan
unfolding is_too_long
plan_window now ttl expiration none =
    ok (record { expiration = expiration; window = fetch_lease_ttl; read = read_plan now none })
plan_window now ttl expiration (some ahead) = do
  refuse_if (not (is_positive ahead)) (plain refresh_ahead_not_positive)
  refuse_if (is_too_long ttl ahead) (plain refresh_ahead_too_long)
  ok (record {
    expiration = expiration;
    window = ahead;
    read = read_plan now (some (expires_in now ahead));
  })

-- `planFetch`, at a moment when `time.Now()` is `now`.
unfoldable pub plan_fetch : ℕ → Config → Duration → List (Option Duration) → Result FetchPlan
unfolding plan_window
plan_fetch now cfg ttl options = do
  policy ← apply_fetches options (call_policy cfg)
  expiration ← resolve_ttl now ttl
  plan_window now ttl expiration policy.refresh_ahead

-- What a `Fetch` does with a read: it returns the value, with a refresh in the background where there
-- is a CAS for it; loads under its lease; computes without the cache; or waits for another's lease.
pub data Turn : Type 0 where
  returned : Bytes → Option ℕ → Turn
  lead : ℕ → Turn
  compute wait : Turn

-- A lease that was won, with its CAS.
unfoldable pub granted_cas : GetResult → Option ℕ
granted_cas r = elim r.lease [ LeaseState.granted ↦ r.metadata.cas | _ ↦ none ]

abbrev pub lead_or_compute : Option ℕ → Turn
lead_or_compute none = compute
lead_or_compute (some cas) = lead cas

abbrev pub empty_hit : LeaseState → Option ℕ → Turn
empty_hit LeaseState.busy cas = wait
empty_hit _ cas = lead_or_compute cas

-- The `switch` of `fetch`.
unfoldable pub turn_of : GetResult → GetStatus → Turn
unfolding granted_cas
turn_of r GetStatus.hit =
    if not (is_empty r.value)
    then returned r.value (granted_cas r)
    else empty_hit r.lease r.metadata.cas
turn_of r GetStatus.miss = lead_or_compute (granted_cas r)
turn_of r _ = wait
