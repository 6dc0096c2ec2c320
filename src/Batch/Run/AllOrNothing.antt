-- ===== src/Batch/Run/AllOrNothing.antt =====
-- `batch` of batch.go: the length of its results, and its failures.
use go_memcache.Base.{
  ℕ, zero, suc, ◌≡◌, refl, ◌∙◌, ap, List, [], ◌∷◌, Option, none, some, length, replicate,
  length-set,
}
use go_memcache.Errors.{Err, Result, ok, err}
use go_memcache.Client.{Client}
use go_memcache.Verbs.Meta.{is_noop}
use go_memcache.Types.{RawResponse}
use go_memcache.Client.State.{caller, Exchange, answered, failed, Network, State, ◌>>=◌, lift}
use go_memcache.Batch.{Submitted, OperationResult, no_result, Prepared}
use go_memcache.Batch.Prepare.{Group, plan_batch}
use go_memcache.Batch.Resolve.{
  Tally, no_tally, check_barrier, tally_responses, settle_items, settle, resolve_group,
}
use go_memcache.Batch.Run.{resolve_outcome, run_groups, batch}

length-settle_items :
    (e : Option Err) (written : ℕ) (t : Tally) (ps : List Prepared) (output : List OperationResult)
    → length (settle_items e written t ps output) ≡ length output
unfolding settle_items
length-settle_items e written t [] output = refl
length-settle_items e written t (p ∷ ps) output =
    length-settle_items e written t ps _ ∙ length-set output p.index (settle e written t p)

length-resolve_group :
    (items : List Prepared) (responses : List RawResponse) (written : ℕ) (e : Option Err)
    (output : List OperationResult)
    → length (resolve_group items responses written e output) ≡ length output
unfolding resolve_group
length-resolve_group items responses written e output =
    length-settle_items e written (check_barrier e (tally_responses items responses no_tally)) items
      output

pub length-resolve_outcome :
    (g : Group) (x : Exchange) (output : List OperationResult)
    → length (resolve_outcome g x output) ≡ length output
unfolding resolve_outcome
length-resolve_outcome g (answered r rs written) output =
    length-resolve_group g.items (r ∷ rs) written none output
length-resolve_outcome g (failed rs written e) output =
    length-resolve_group g.items rs written (some e) output

run_groups-ok :
    {W : Type 0} (net : Network W) (gs : List Group) (output : List OperationResult) (s : State W)
    → (rs : List OperationResult) × ((run_groups net gs output s).0 ≡ ok rs)
      × (length rs ≡ length output)
unfolding run_groups
run_groups-ok net [] output s = (output, refl, refl)
run_groups-ok net (g ∷ gs) output s =
    let x = net.exchange g.pool caller g.payload (λ r. is_noop r.code) s.world in
    let (rs, same_rs, n) =
      run_groups-ok net gs (resolve_outcome g x.0 output) (record s { world = x.1 }) in
    (rs, same_rs, n ∙ length-resolve_outcome g x.0 output)

pub length-replicate {ℓ} : {A : Type ℓ} (n : ℕ) (a : A) → length (replicate n a) ≡ n
length-replicate zero a = refl
length-replicate (suc n) a = ap suc (length-replicate n a)

run_plan-err :
    {W : Type 0} (net : Network W) (plan : Result (List Group)) (output : List OperationResult)
    (s : State W) {e : Err}
    → ((lift plan >>= λ groups. run_groups net groups output) s).0 ≡ err e
    → (plan ≡ err e) × (((lift plan >>= λ groups. run_groups net groups output) s).1 ≡ s)
run_plan-err net (ok groups) output s h =
    let (rs, answered_all, n) = run_groups-ok net groups output s in cc
run_plan-err net (err e) output s h = (cc, refl)

-- A batch that fails has sent nothing and changed nothing: the error is one of the validation, of
-- the routing or of the framing.
pub batch-err :
    {W : Type 0} (net : Network W) (c : Client) (os : List Submitted) (s : State W) {e : Err}
    → (batch net c os s).0 ≡ err e
    → (plan_batch c os ≡ err e) × ((batch net c os s).1 ≡ s)
unfolding batch
batch-err net c [] s h = cc
batch-err net c (o ∷ os) s h =
    run_plan-err net (plan_batch c (o ∷ os)) (replicate (length (o ∷ os)) no_result) s h
