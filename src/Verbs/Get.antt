-- ===== src/Verbs/Get.antt =====
-- get.go; `GetMany` is in Verbs.Collections.
use go_memcache.Base.{
  ℕ, suc, ◌*◌, ◌%◌, ◌^◌, Bool, true, false, not, ◌||◌, List, Option, none, some, Bytes, ltb,
  if◌then◌else◌, ◌-◌,
}
use go_memcache.Base.Int.{ℤ, pos, negsuc, is_positive}
use go_memcache.Errors.{Result, ok, err, wrapped, returning_election}
use go_memcache.Wire.{MetaCommand}
use go_memcache.Types.{
  Seconds, GetStatus, ValueState, LeaseState, GetResult, MetaGetOptions, MetaDeleteOptions, is_hit,
  no_get_options, no_delete_options, Metadata,
}
use go_memcache.Types.Expiration.{second, expires_in}
use go_memcache.Options.{Duration, call_policy, apply_gets, resolve_ttl}
use go_memcache.Codec.{Codec, Payload, Target, decode}
use go_memcache.Command.Get.{build_get, semantic_get, zero_get, is_empty}
use go_memcache.Command.Delete.{build_delete}
use go_memcache.Client.{Client}
use go_memcache.Client.State.{
  caller, root, Network, return_election, Action, ◌>>=◌, ◌>>◌, done, lift, spawn, handle, clock,
}
use go_memcache.Client.Execute.{report_error, absorb_or, execute_meta}

pub is_stale_granted : ValueState → LeaseState → Bool
is_stale_granted ValueState.stale LeaseState.granted = true
is_stale_granted _ _ = false

-- `result.ValueState == ValueStale && result.Lease == LeaseGranted`.
unfoldable pub is_stale_win : GetResult → Bool
unfolding is_stale_granted
is_stale_win r = is_stale_granted r.value_state r.lease

-- The low 64 bits of a natural, as an int64.
unfoldable pub wrap_int64 : ℕ → ℤ
wrap_int64 n = let w = n % 2 ^ 64 in if ltb w (2 ^ 63) then pos w else negsuc (2 ^ 64 - 1 - w)

-- `time.Duration(n) * time.Second`, in an int64.
unfoldable pub times_second : ℤ → ℤ
unfolding wrap_int64
times_second (pos n) = wrap_int64 (n * second)
times_second (negsuc n) = wrap_int64 (2 ^ 64 - suc n * second % 2 ^ 64)

-- The `StaleFor` of `returnStaleWin`: the entry's remaining TTL, where it has one.
unfoldable pub stale_window : ℕ → ℤ → Option Seconds
unfolding times_second
stale_window now ttl = if is_positive ttl then some (expires_in now (times_second ttl)) else none

pub election : ℕ → Option ℕ → Option ℤ → Option MetaDeleteOptions
unfolding stale_window
election now (some cas) (some ttl) = some (record no_delete_options {
  invalidate = true;
  compare_cas = some cas;
  stale_for = stale_window now ttl;
})
election now _ _ = none

abbrev pub spawn_election : {W : Type 0} → Bytes → Option MetaDeleteOptions → Action W (Unit {0})
spawn_election key none = done tt
spawn_election key (some o) = spawn (return_election key o)

-- `returnStaleWin`: nothing without a CAS and a TTL, else a goroutine that re-invalidates the entry.
unfoldable pub return_stale_win : {W : Type 0} → Network W → Bytes → GetResult → Action W (Unit {0})
unfolding election
return_stale_win net key r = do
  now ← clock net
  spawn_election key (election now r.metadata.cas r.metadata.ttl)

-- The body of that goroutine.
unfoldable pub run_election :
    {W : Type 0} → Network W → Client → Bytes → MetaDeleteOptions → Action W (Unit {0})
run_election net c key o =
    handle (lift (build_delete key o) >>= execute_meta net c root) (λ wire. done tt)
      (λ e s. (ok tt, report_error c (wrapped returning_election e) s))

-- The miss that Degrade makes of an error.
abbrev pub absorbed_miss : Bytes → GetResult
absorbed_miss key = record zero_get {
  key = key;
  status = GetStatus.miss;
  value_state = ValueState.missing;
}

-- What `doGet` does with the outcome of the read.
unfoldable pub settle_get :
    {W : Type 0} → Network W → Client → Bytes → Action W GetResult → Action W GetResult
unfolding is_stale_win
settle_get net c key read =
    handle read (λ r. if is_stale_win r then (do return_stale_win net key r; done r) else done r)
      (absorb_or net c (absorbed_miss key))

-- The exchange and the reading of its response.
unfoldable pub read_item :
    {W : Type 0} → Network W → Client → Bytes → MetaGetOptions → MetaCommand → Action W GetResult
read_item net c key o m = do wire ← execute_meta net c caller m; lift (semantic_get key o wire)

-- `doGet`.
unfoldable pub do_get :
    {W : Type 0} → Network W → Client → Bytes → MetaGetOptions → Action W GetResult
unfolding settle_get read_item
do_get net c key o = do
  command ← lift (build_get key o)
  settle_get net c key (read_item net c key o command)

-- `baseReadOptions`.
abbrev pub base_read_options : MetaGetOptions
base_read_options = record no_get_options { return_cas = true; return_ttl = true }

pub with_touch : Result Seconds → Result MetaGetOptions
with_touch (ok e) = ok (record base_read_options { touch = some e })
with_touch (err e) = err e

-- `policyReadOptions`, from the policy's touch.
unfoldable pub policy_read_options : ℕ → Option Duration → Result MetaGetOptions
unfolding with_touch
policy_read_options now none = ok base_read_options
policy_read_options now (some d) = with_touch (resolve_ttl now d)

pub some_ok : {A : Type 0} → Result A → Result (Option A)
some_ok (ok v) = ok (some v)
some_ok (err e) = err e

-- What `Get` returns for a read: nothing on a miss and on an empty value, else the decoded value.
unfoldable pub found_value :
    {V : Type 0} → Codec V → Target → GetResult → Result (Option (Payload V))
unfolding some_ok
found_value codec target r =
    if not (is_hit r.status) || is_empty r.value
    then ok none
    else some_ok (decode codec target r.value)

-- `Get`; `none` is its `ok == false`.
unfoldable pub get :
    {W V : Type 0}
    → Network W
    → Client
    → Codec V
    → Target
    → Bytes
    → List (Option Duration)
    → Action W (Option (Payload V))
unfolding policy_read_options found_value do_get
get net c codec target key options = do
  policy ← lift (apply_gets options (call_policy c.config))
  now ← clock net
  read ← lift (policy_read_options now policy.touch)
  result ← do_get net c key read
  lift (found_value codec target result)

-- `Touch`.
unfoldable pub touch : {W : Type 0} → Network W → Client → Bytes → Duration → Action W (Unit {0})
unfolding do_get
touch net c key ttl = do
  now ← clock net
  expiration ← lift (resolve_ttl now ttl)
  result ←
      do_get net c key (record base_read_options { metadata_only = true; touch = some expiration })
  done tt

pub record ItemInfo : Type 0 where
  pub ttl : Duration
  pub size : ℤ
  pub last_access : Duration
  pub hit_before : Bool

abbrev pub or_zero {ℓ} : {A : Type ℓ} → ℤ → (A → ℤ) → Option A → ℤ
or_zero z f none = z
or_zero z f (some a) = f a

abbrev pub or_false : Option Bool → Bool
or_false none = false
or_false (some b) = b

unfoldable pub item_info : Metadata → ItemInfo
unfolding times_second
item_info m = record {
  ttl = or_zero (pos 0) times_second m.ttl;
  size = or_zero (pos 0) wrap_int64 m.size;
  last_access = or_zero (pos 0) (λ n. wrap_int64 (n * second)) m.last_access;
  hit_before = or_false m.hit_before;
}

-- The options of `Inspect`.
abbrev pub inspect_options : MetaGetOptions
inspect_options = record no_get_options {
  metadata_only = true;
  return_cas = true;
  return_ttl = true;
  return_size = true;
  return_last_access = true;
  return_hit_before = true;
  no_lru_bump = true;
}

-- `Inspect`.
unfoldable pub inspect : {W : Type 0} → Network W → Client → Bytes → Action W (Option ItemInfo)
unfolding item_info do_get
inspect net c key = do
  result ← do_get net c key inspect_options
  done (if is_hit result.status then some (item_info result.metadata) else none)
