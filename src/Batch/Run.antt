-- ===== src/Batch/Run.antt =====
-- `batch` of batch.go from the exchanges on. The source exchanges with the servers in parallel and
-- takes the outcomes as they come; here both go by the order of the groups.
pub mod AllOrNothing
pub mod Answered
use go_memcache.Base.{List, [], ◌∷◌, none, some, length, replicate}
use go_memcache.Errors.{ok}
use go_memcache.Verbs.Meta.{is_noop}
use go_memcache.Client.{Client}
use go_memcache.Client.State.{
  caller, Exchange, answered, failed, Network, Action, ◌>>=◌, done, lift,
}
use go_memcache.Batch.{Submitted, OperationResult, no_result}
use go_memcache.Batch.Prepare.{Group, plan_batch}
use go_memcache.Batch.Resolve.{resolve_group}

-- A group's outcome, written into the results.
unfoldable pub resolve_outcome : Group → Exchange → List OperationResult → List OperationResult
resolve_outcome g (answered r rs written) output =
    resolve_group g.items (r ∷ rs) written none output
resolve_outcome g (failed rs written e) output = resolve_group g.items rs written (some e) output

unfoldable pub run_groups :
    {W : Type 0} → Network W → List Group → List OperationResult → Action W (List OperationResult)
unfolding resolve_outcome
run_groups net [] output s = (ok output, s)
run_groups net (g ∷ gs) output s =
    let (x, w) = net.exchange g.pool caller g.payload (λ r. is_noop r.code) s.world in
    run_groups net gs (resolve_outcome g x output) (record s { world = w })

-- `batch`.
unfoldable pub batch :
    {W : Type 0} → Network W → Client → List Submitted → Action W (List OperationResult)
unfolding run_groups
batch net c [] = done []
batch net c (o ∷ os) = do
  groups ← lift (plan_batch c (o ∷ os))
  run_groups net groups (replicate (length (o ∷ os)) no_result)
