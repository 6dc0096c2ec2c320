-- ===== src/Fetch/Lease.antt =====
-- What a `Fetch` does with a value that the server has sent for its read, by the marks that lie on it.
use go_memcache.Base.{
  ℕ, ◌≡◌, refl, Bool, true, false, not, ◌&&◌, ◌||◌, [], ◌∷◌, List, Option, none, some, Bytes,
  if◌then◌else◌,
}
use go_memcache.Base.Int.{is_positive}
use go_memcache.Errors.{
  plain, ok, bind-eq-ok, refuse-eq-ok, ok-elim, refresh_ahead_not_positive, refresh_ahead_too_long,
}
use go_memcache.Types.{Seconds, ResponseCode, GetResult, RawResponse}
use go_memcache.Types.Expiration.{expires_in}
use go_memcache.Options.{Config, Duration, call_policy, apply_fetches, resolve_ttl}
use go_memcache.Command.Get.{is_empty, semantic_get, get_by_code, hit_result, is_placeholder}
use go_memcache.Fetch.{
  FetchPlan, read_plan, plan_window, plan_fetch, is_too_long, Turn, returned, wait, lead_or_compute,
  turn_of, granted_cas,
}

-- The turn for a value by its marks.
abbrev pub marked_turn : RawResponse → Turn
marked_turn r =
    if is_empty r.value
    then (if r.busy then wait else lead_or_compute r.metadata.cas)
    else returned r.value (if r.won && not r.busy then r.metadata.cas else none)

plan_window-read :
    (now : ℕ) (ttl : Duration) (expiration : Seconds) (ahead : Option Duration) {plan : FetchPlan}
    → plan_window now ttl expiration ahead ≡ ok plan
    → (before : Option Seconds) × (plan.read ≡ read_plan now before)
unfolding plan_window
plan_window-read now ttl expiration none h =
    ok-elim (λ (plan : FetchPlan). (before : Option Seconds) × (plan.read ≡ read_plan now before)) h
      (none, refl)
plan_window-read now ttl expiration (some ahead) h =
    let (_, h1) = refuse-eq-ok (not (is_positive ahead)) (plain refresh_ahead_not_positive) _ h in
    let (_, h2) = refuse-eq-ok (is_too_long ttl ahead) (plain refresh_ahead_too_long) _ h1 in
    ok-elim (λ (plan : FetchPlan). (before : Option Seconds) × (plan.read ≡ read_plan now before))
      h2 (some (expires_in now ahead), refl)

plan_fetch-read :
    (now : ℕ) (cfg : Config) (ttl : Duration) (options : List (Option Duration)) {plan : FetchPlan}
    → plan_fetch now cfg ttl options ≡ ok plan
    → (before : Option Seconds) × (plan.read ≡ read_plan now before)
unfolding plan_fetch
plan_fetch-read now cfg ttl options h =
    let (policy, _, h1) = bind-eq-ok (apply_fetches options (call_policy cfg)) _ h in
    let (expiration, _, h2) = bind-eq-ok (resolve_ttl now ttl) _ h1 in
    plan_window-read now ttl expiration policy.refresh_ahead h2

-- The cases of the marks and of the value, which is `v` here.
turn_of-hit_result :
    (key : Bytes) (now : ℕ) (before : Option Seconds) (r : RawResponse) (won busy stale : Bool)
    (v : Bytes)
    → let x : RawResponse = record r { won = won; busy = busy; stale = stale; value = v } in
      let g = hit_result key (read_plan now before) x true in
      (is_empty v || stale) ≡ true → (won && busy) ≡ false → turn_of g g.status ≡ marked_turn x
unfolding turn_of hit_result is_placeholder granted_cas is_empty
turn_of-hit_result key now none r true false false [] h k = refl
turn_of-hit_result key now (some b) r true false false [] h k = refl
turn_of-hit_result key now none r false true false [] h k = refl
turn_of-hit_result key now (some b) r false true false [] h k = refl
turn_of-hit_result key now none r false false false [] h k = refl
turn_of-hit_result key now (some b) r false false false [] h k = refl
turn_of-hit_result key now none r true false true [] h k = refl
turn_of-hit_result key now (some b) r true false true [] h k = refl
turn_of-hit_result key now none r false true true [] h k = refl
turn_of-hit_result key now (some b) r false true true [] h k = refl
turn_of-hit_result key now none r false false true [] h k = refl
turn_of-hit_result key now (some b) r false false true [] h k = refl
turn_of-hit_result key now none r true false true (c ∷ v) h k = refl
turn_of-hit_result key now (some b) r true false true (c ∷ v) h k = refl
turn_of-hit_result key now none r false true true (c ∷ v) h k = refl
turn_of-hit_result key now (some b) r false true true (c ∷ v) h k = refl
turn_of-hit_result key now none r false false true (c ∷ v) h k = refl
turn_of-hit_result key now (some b) r false false true (c ∷ v) h k = refl
turn_of-hit_result key now before r true true stale v h k = cc
turn_of-hit_result key now before r won busy false (c ∷ v) h k = cc

-- What a `Fetch` whose plan is accepted does with a value from the server that is empty or stale,
-- where not both marks of the lease lie on it: an empty one, as the placeholder of a lease is, it
-- waits for where another holds the lease, and else replaces under its CAS, or computes if it has
-- none; a stale one that is not empty it returns, with a refresh in the background exactly where it
-- has won the lease and has a CAS. A refresh window of the plan changes nothing of that.
pub turn_of-semantic_get :
    (now : ℕ) (cfg : Config) (ttl : Duration) (options : List (Option Duration)) (key : Bytes)
    (r : RawResponse) {plan : FetchPlan} {g : GetResult}
    → plan_fetch now cfg ttl options ≡ ok plan
    → r.code ≡ ResponseCode.value
    → (is_empty r.value || r.stale) ≡ true
    → (r.won && r.busy) ≡ false
    → semantic_get key plan.read r ≡ ok g
    → turn_of g g.status ≡ marked_turn r
unfolding semantic_get get_by_code
turn_of-semantic_get now cfg ttl options key r {plan} planned code weak marks h =
    let (before, e) = plan_fetch-read now cfg ttl options planned in
    ok-elim (λ g. turn_of g g.status ≡ marked_turn r) (rw (code, e) at h)
      (turn_of-hit_result key now before r r.won r.busy r.stale r.value weak marks)
