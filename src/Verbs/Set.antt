-- ===== src/Verbs/Set.antt =====
-- set.go; `SetMany` is in Verbs.Collections.
pub mod Forever
use go_memcache.Base.{Bool, some, Bytes, if◌then◌else◌}
use go_memcache.Errors.{plain, empty_value, not_stored, set_not_stored}
use go_memcache.Types.{
  MutationStatus, StoreMode, mode_add, mode_replace, mode_append, mode_prepend, MetaSetOptions,
  is_applied, no_set_options,
}
use go_memcache.Options.{Duration, resolve_ttl}
use go_memcache.Codec.{Codec, Payload, encode}
use go_memcache.Command.Get.{is_empty}
use go_memcache.Command.Set.{build_set, store_status}
use go_memcache.Client.{Client}
use go_memcache.Client.State.{
  caller, Network, Action, ◌>>=◌, ◌>>◌, done, raise, lift, lift_pair, handle, clock,
}
use go_memcache.Client.Execute.{absorb_or, execute_meta}

-- `doSet`.
unfoldable pub do_set :
    {W : Type 0} → Network W → Client → Bytes → Bytes → MetaSetOptions → Action W MutationStatus
do_set net c key value o = do
  command ← lift (build_set key value o)
  wire ← execute_meta net c caller command
  lift_pair (store_status wire.code o.mode)

-- `if len(data) == 0 { return errEmptyValue }`.
abbrev pub refuse_empty : {W : Type 0} → Bytes → Action W (Unit {0})
refuse_empty data' = if is_empty data' then raise empty_value else done tt

-- `Set`.
unfoldable pub set :
    {W V : Type 0}
    → Network W
    → Client
    → Codec V
    → Bytes
    → Payload V
    → Duration
    → Action W (Unit {0})
unfolding do_set is_empty is_applied
set net c codec key value ttl = do
  now ← clock net
  expiration ← lift (resolve_ttl now ttl)
  bytes ← lift (encode codec value)
  refuse_empty bytes
  handle (do_set net c key bytes (record no_set_options { ttl = expiration }))
      (λ status. if is_applied status then done tt else raise (plain set_not_stored))
      (absorb_or net c tt)

-- `Add` and `Replace`, which differ in the mode.
unfoldable pub store_if :
    {W V : Type 0}
    → StoreMode
    → Network W
    → Client
    → Codec V
    → Bytes
    → Payload V
    → Duration
    → Action W Bool
unfolding do_set is_empty
store_if mode net c codec key value ttl = do
  now ← clock net
  expiration ← lift (resolve_ttl now ttl)
  bytes ← lift (encode codec value)
  refuse_empty bytes
  status ← do_set net c key bytes (record no_set_options { ttl = expiration; mode = mode })
  done (is_applied status)

abbrev pub add :
    {W V : Type 0} → Network W → Client → Codec V → Bytes → Payload V → Duration → Action W Bool
add = store_if mode_add

abbrev pub replace :
    {W V : Type 0} → Network W → Client → Codec V → Bytes → Payload V → Duration → Action W Bool
replace = store_if mode_replace

-- `concat`.
unfoldable pub concat :
    {W : Type 0} → StoreMode → Network W → Client → Bytes → Bytes → Duration → Action W (Unit {0})
unfolding do_set is_empty is_applied
concat mode net c key fragment ttl = do
  now ← clock net
  expiration ← lift (resolve_ttl now ttl)
  refuse_empty fragment
  handle
      (do_set net c key fragment
        (record no_set_options { mode = mode; vivify_ttl = some expiration }))
      (λ status. if is_applied status then done tt else raise not_stored) (absorb_or net c tt)

abbrev pub append :
    {W : Type 0} → Network W → Client → Bytes → Bytes → Duration → Action W (Unit {0})
append = concat mode_append

abbrev pub prepend :
    {W : Type 0} → Network W → Client → Bytes → Bytes → Duration → Action W (Unit {0})
prepend = concat mode_prepend
