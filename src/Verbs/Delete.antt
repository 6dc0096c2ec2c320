-- ===== src/Verbs/Delete.antt =====
-- delete.go; `DeleteMany` is in Verbs.Collections.
use go_memcache.Base.{Bool, true, false, not, some, Bytes, if◌then◌else◌}
use go_memcache.Base.Int.{is_positive}
use go_memcache.Errors.{plain, delete_not_applied, grace_not_positive}
use go_memcache.Types.{MutationStatus, no_delete_options}
use go_memcache.Types.Expiration.{expires_in}
use go_memcache.Options.{Duration}
use go_memcache.Command.Delete.{build_delete, delete_status}
use go_memcache.Client.{Client}
use go_memcache.Client.State.{
  caller, Network, Action, ◌>>=◌, done, raise, lift, lift_pair, handle, clock,
}
use go_memcache.Client.Execute.{absorb_or, execute_meta}

-- `status == MutationApplied || status == MutationNotFound`.
unfoldable pub is_gone : MutationStatus → Bool
is_gone MutationStatus.applied = true
is_gone MutationStatus.not_found = true
is_gone _ = false

-- `Delete`.
unfoldable pub delete : {W : Type 0} → Network W → Client → Bytes → Action W (Unit {0})
unfolding is_gone
delete net c key = do
  command ← lift (build_delete key no_delete_options)
  handle (execute_meta net c caller command)
      (λ wire. do
        status ← lift_pair (delete_status wire.code)
        if is_gone status then done tt else raise (plain delete_not_applied))
      (absorb_or net c tt)

-- `Invalidate`.
unfoldable pub invalidate :
    {W : Type 0} → Network W → Client → Bytes → Duration → Action W (Unit {0})
invalidate net c key grace =
    if not (is_positive grace) then raise (plain grace_not_positive) else (do
      now ← clock net
      command ← lift (
          build_delete key (record no_delete_options {
            invalidate = true;
            stale_for = some (expires_in now grace);
          }))
      handle (execute_meta net c caller command)
          (λ wire. do status ← lift_pair (delete_status wire.code); done tt) (absorb_or net c tt))
