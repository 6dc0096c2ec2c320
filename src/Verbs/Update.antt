-- ===== src/Verbs/Update.antt =====
-- update.go.
pub mod Attempts
pub mod Takes
pub mod Retries
pub mod Conditional
use go_memcache.Base.{
  ℕ, zero, suc, Bool, true, false, not, ◌||◌, ◌&&◌, Option, none, some, Bytes, if◌then◌else◌,
}
use go_memcache.Errors.{
  Err, Result, plain, protocol, no_transform, conflict, empty_value, cas_omitted,
}
use go_memcache.Types.{
  ValueState, GetResult, MetaSetOptions, mode_add, is_hit, is_applied, no_set_options,
  no_delete_options, Seconds,
}
use go_memcache.Options.{Duration, resolve_ttl}
use go_memcache.Codec.{Codec, Payload, Target}
use go_memcache.Command.Get.{build_get, semantic_get, is_empty}
use go_memcache.Command.Delete.{build_delete, delete_status}
use go_memcache.Client.{Client}
use go_memcache.Client.State.{
  caller, Network, Action, ◌>>=◌, ◌>>◌, done, raise, lift, lift_pair, handle, clock,
}
use go_memcache.Client.Execute.{execute_meta}
use go_memcache.Verbs.Get.{base_read_options, is_stale_win, return_stale_win}
use go_memcache.Verbs.Set.{do_set}
use go_memcache.Verbs.Transform.{typed_transform}

abbrev pub update_attempts : ℕ
update_attempts = 8

unfoldable pub is_fresh : ValueState → Bool
is_fresh ValueState.fresh = true
is_fresh _ = false

-- What `fn` is given: the value of a fresh, non-empty hit.
unfoldable pub current_value : GetResult → Option Bytes
unfolding is_fresh is_hit is_empty
current_value r =
    if is_hit r.status && (is_fresh r.value_state && not (is_empty r.value))
    then some r.value
    else none

-- The CAS that the write compares, after any hit.
unfoldable pub compare_of : GetResult → Option ℕ
unfolding is_hit
compare_of r = if is_hit r.status then r.metadata.cas else none

-- A write on the CAS of the read, or an add where there is none.
unfoldable pub write_options : Seconds → Option ℕ → MetaSetOptions
write_options expiration (some cas) = record no_set_options {
  ttl = expiration;
  compare_cas = some cas;
}
write_options expiration none = record no_set_options { ttl = expiration; mode = mode_add }

-- The read of one attempt.
unfoldable pub read_version : {W : Type 0} → Network W → Client → Bytes → Action W GetResult
read_version net c key = do
  command ← lift (build_get key base_read_options)
  wire ← execute_meta net c caller command
  lift (semantic_get key base_read_options wire)

-- Leaves the entry unwritten: a recache token that the read took by accident goes back.
unfoldable pub abort : {W A : Type 0} → Network W → Bytes → GetResult → Err → Action W A
abort net key r e = if is_stale_win r then (do return_stale_win net key r; raise e) else raise e

-- The write of one attempt; `none` if it was not applied.
unfoldable pub write_next :
    {W A : Type 0}
    → Network W
    → Client
    → Bytes
    → Seconds
    → GetResult
    → Bytes × A
    → Action W (Option (Bytes × A))
unfolding abort write_options compare_of is_applied
write_next net c key expiration r (bytes, a) =
    if is_empty bytes then abort net key r empty_value else (do
      status ← do_set net c key bytes (write_options expiration (compare_of r))
      done (if is_applied status then some (bytes, a) else none))

unfoldable pub attempt :
    {W A : Type 0}
    → Network W
    → Client
    → Bytes
    → Seconds
    → (Option Bytes → Result (Bytes × A))
    → Action W (Option (Bytes × A))
unfolding read_version write_next
attempt net c key expiration fn = do
  r ← read_version net c key
  handle (lift (fn (current_value r))) (write_next net c key expiration r) (abort net key r)

-- A loop of attempts, of which `none` is one that lost to another writer.
unfoldable pub retry : {W A : Type 0} → ℕ → Action W (Option A) → Action W A
retry zero body = raise conflict
retry (suc n) body = body >>= λ won. elim won [ none ↦ retry n body | some a ↦ done a ]

-- `update`. The transform also returns what its caller keeps of the attempt.
unfoldable pub update :
    {W A : Type 0}
    → Network W
    → Client
    → Bytes
    → Duration
    → (Option Bytes → Result (Bytes × A))
    → Action W (Bytes × A)
unfolding attempt retry
update net c key ttl fn = do
  now ← clock net
  expiration ← lift (resolve_ttl now ttl)
  retry update_attempts (attempt net c key expiration fn)

-- `Update`, whose `fn` may be nil; the result is what it returned on the attempt that was stored.
unfoldable pub typed_update :
    {W V : Type 0}
    → Network W
    → Client
    → Codec V
    → Target
    → Bytes
    → Duration
    → Option (Option (Payload V) → Result (Payload V))
    → Action W (Payload V)
unfolding update
typed_update net c codec target key ttl none = raise (plain no_transform)
typed_update net c codec target key ttl (some fn) = do
  stored ← update net c key ttl (typed_transform codec target fn)
  done stored.1

-- The delete of one attempt of `Take`.
unfoldable pub take_version :
    {W : Type 0}
    → Network W
    → Client
    → Bytes
    → GetResult
    → Option ℕ
    → Action W (Option (Option Bytes))
take_version net c key r none = raise (protocol cas_omitted)
take_version net c key r (some cas) = do
  command ← lift (build_delete key (record no_delete_options { compare_cas = some cas }))
  wire ← execute_meta net c caller command
  status ← lift_pair (delete_status wire.code)
  done (if is_applied status then some (some r.value) else none)

unfoldable pub take_attempt :
    {W : Type 0} → Network W → Client → Bytes → Action W (Option (Option Bytes))
unfolding read_version take_version
take_attempt net c key = do
  r ← read_version net c key
  let nothing = if is_stale_win r then return_stale_win net key r else done tt
  let read = take_version net c key r r.metadata.cas
  if not (is_hit r.status) || is_empty r.value then nothing >> done (some none) else read

-- `Take`; `none` is its nil result.
unfoldable pub take : {W : Type 0} → Network W → Client → Bytes → Action W (Option Bytes)
unfolding take_attempt retry
take net c key = retry update_attempts (take_attempt net c key)
