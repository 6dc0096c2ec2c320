-- ===== src/Fetch/Plan.antt =====
-- The read that a `Fetch` has planned.
use go_memcache.Base.{
  ℕ, ◌≡◌, refl, arith, true, false, not, some, none, Bool-cases, inl, inr, Bytes, List, Option, ltb,
  [], ◌++◌, codes,
}
use go_memcache.Base.Int.{ℤ, pos, negsuc, is_positive}
use go_memcache.Errors.{
  plain, ok, bind-eq-ok, refuse-eq-ok, ok-elim, refresh_ahead_not_positive, refresh_ahead_too_long,
}
use go_memcache.Types.{Seconds}
use go_memcache.Types.Expiration.{max_relative_expiration, expires_in}
use go_memcache.Types.Expiration.Bounds.{expires_in-Covers, expires_in_absolute}
use go_memcache.Options.{Config, Duration, call_policy, apply_fetches, resolve_ttl}
use go_memcache.Wire.{MetaCommand}
use go_memcache.Command.Flags.{not_positive, append_opaque, opaque_flags}
use go_memcache.Command.Get.{get_flags, build_get}
use go_memcache.Fetch.{FetchPlan, fetch_lease_ttl, read_plan, plan_window, plan_fetch, is_too_long}

-- A positive duration is never the expiration that a builder refuses.
expires_in-positive :
    (now : ℕ) (d : ℤ) → is_positive d ≡ true → not_positive (some (expires_in now d)) ≡ false
unfolding not_positive
expires_in-positive now (negsuc n) h = cc
expires_in-positive now (pos n) h = elim (Bool-cases (ltb max_relative_expiration n)) [
  | inl long ↦
      let (seconds, e, _, _, big) = expires_in_absolute now n (ground arith) in
      rw e (ground (arith, big))
  | inr short ↦
      let (seconds, e, some_time, _) = expires_in-Covers now n (ground arith) (ground arith) in
      rw e (ground (arith, some_time))
]

-- The read of a plan builds whatever its window, if the window is a positive duration.
build_get-read_plan :
    (key : Bytes) (now : ℕ) (before : Option Seconds)
    → not_positive before ≡ false
    → (m : MetaCommand) × (build_get key (read_plan now before) ≡ ok m)
unfolding build_get append_opaque opaque_flags go_memcache.Wire.validate_opaque
build_get-read_plan key now before h =
    let command : MetaCommand = record {
      command = codes "mg";
      key = key;
      flags = get_flags (read_plan now before) ++ [];
      value = [];
      has_value = false;
    } in
    (command, rw (expires_in-positive now fetch_lease_ttl refl, h) refl)

build_get-plan_window :
    (now : ℕ) (ttl : Duration) (expiration : Seconds) (ahead : Option Duration) {plan : FetchPlan}
    → plan_window now ttl expiration ahead ≡ ok plan
    → (key : Bytes) → (m : MetaCommand) × (build_get key plan.read ≡ ok m)
unfolding plan_window not_positive
build_get-plan_window now ttl expiration none h key =
    ok-elim (λ (plan : FetchPlan). (m : MetaCommand) × (build_get key plan.read ≡ ok m)) h
      (build_get-read_plan key now none refl)
build_get-plan_window now ttl expiration (some ahead) h key =
    let (positive, h1) =
      refuse-eq-ok (not (is_positive ahead)) (plain refresh_ahead_not_positive) _ h in
    let (_, h2) = refuse-eq-ok (is_too_long ttl ahead) (plain refresh_ahead_too_long) _ h1 in
    ok-elim (λ (plan : FetchPlan). (m : MetaCommand) × (build_get key plan.read ≡ ok m)) h2
      (build_get-read_plan key now (some (expires_in now ahead))
        (expires_in-positive now ahead (ground (arith, positive))))

-- Whatever the TTL, the options and the client's defaults, the read of a `Fetch` whose plan is
-- accepted is never refused by its builder, for no key.
pub build_get-plan_fetch :
    (now : ℕ) (cfg : Config) (ttl : Duration) (options : List (Option Duration)) (key : Bytes)
    {plan : FetchPlan}
    → plan_fetch now cfg ttl options ≡ ok plan
    → (m : MetaCommand) × (build_get key plan.read ≡ ok m)
unfolding plan_fetch
build_get-plan_fetch now cfg ttl options key h =
    let (policy, _, h1) = bind-eq-ok (apply_fetches options (call_policy cfg)) _ h in
    let (expiration, _, h2) = bind-eq-ok (resolve_ttl now ttl) _ h1 in
    build_get-plan_window now ttl expiration policy.refresh_ahead h2 key
