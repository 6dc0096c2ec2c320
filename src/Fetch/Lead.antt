-- ===== src/Fetch/Lead.antt =====
-- `leadLoad`, `releaseLease`, `writeBack` and the body of `spawnRefresh` of fetch.go: what is done
-- with the lease behind a CAS, on the client's own context.
use go_memcache.Base.{ℕ, some, Bytes, if◌then◌else◌}
use go_memcache.Errors.{
  Err, plain, wrapped, Result, ok, err, loader_empty, write_back_abandoned, write_back_failed,
  release_failed, refresh_failed,
}
use go_memcache.Types.{Seconds, is_applied, mode_set, no_set_options, no_delete_options}
use go_memcache.Command.Get.{is_empty}
use go_memcache.Command.Set.{build_set, store_status}
use go_memcache.Command.Delete.{build_delete, delete_status}
use go_memcache.Client.{Client}
use go_memcache.Client.State.{root, Network, State, Action, ◌>>=◌, done, raise, lift, lift_pair}
use go_memcache.Client.Execute.{report_error, execute_meta}

-- An error of a call goes to the hook, and what the call returned is forgotten.
abbrev pub report_failure : {W A : Type 0} → Client → (Err → Err) → Result A × State W → State W
report_failure c wrap (ok a, s) = s
report_failure c wrap (err e, s) = report_error c (wrap e) s

-- `releaseLease`.
unfoldable pub release_lease : {W : Type 0} → Network W → Client → Bytes → ℕ → State W → State W
release_lease net c key cas s = report_failure c (wrapped release_failed) (
    (do
      command ← lift (build_delete key (record no_delete_options { compare_cas = some cas }))
      wire ← execute_meta net c root command
      lift_pair (delete_status wire.code))
      s)

-- `writeBack`.
unfoldable pub write_back :
    {W : Type 0} → Network W → Client → Bytes → Bytes → ℕ → Seconds → State W → State W
write_back net c key value cas ttl s = report_failure c (wrapped write_back_failed) (
    (do
      command ←
          lift (build_set key value (record no_set_options { ttl = ttl; compare_cas = some cas }))
      wire ← execute_meta net c root command
      status ← lift_pair (store_status wire.code mode_set)
      if is_applied status then done tt else raise (plain write_back_abandoned))
      s)

-- The `switch` of `leadLoad`, on what the loader returned.
unfoldable pub repay_lease :
    {W : Type 0} → Network W → Client → Bytes → ℕ → Seconds → Result Bytes → State W → State W
unfolding release_lease write_back
repay_lease net c key cas ttl (err e) s = release_lease net c key cas s
repay_lease net c key cas ttl (ok value) s =
    if is_empty value
    then release_lease net c key cas (report_error c (plain loader_empty) s)
    else write_back net c key value cas ttl s

-- The function that `leadLoad` gives to `runFlight`.
unfoldable pub lead_load :
    {W : Type 0} → Network W → Client → Bytes → ℕ → Seconds → Action W Bytes → Action W Bytes
unfolding repay_lease
lead_load net c key cas ttl loader s =
    let (r, s') = loader s in (r, repay_lease net c key cas ttl r s')

-- The end of a refresh, on what its loader returned.
unfoldable pub settle_refresh :
    {W : Type 0} → Network W → Client → Bytes → ℕ → Seconds → Result Bytes → State W → State W
unfolding write_back
settle_refresh net c key cas ttl (err e) s = report_error c (wrapped refresh_failed e) s
settle_refresh net c key cas ttl (ok value) s =
    if is_empty value
    then report_error c (plain loader_empty) s
    else write_back net c key value cas ttl s

-- The body of the goroutine of `spawnRefresh`.
unfoldable pub run_refresh :
    {W : Type 0} → Network W → Client → Bytes → ℕ → Seconds → Action W Bytes → State W → State W
unfolding settle_refresh
run_refresh net c key cas ttl loader s =
    let (r, s') = loader s in settle_refresh net c key cas ttl r s'
