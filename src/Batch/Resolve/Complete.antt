-- ===== src/Batch/Resolve/Complete.antt =====
-- `resolveGroup` of batch.go, when a server answers as it should.
use go_memcache.Base.{
  ℕ, ◌<◌, ◌≡◌, refl, ◌∙◌, ap, arith, false, List, [], ◌∷◌, ◌++◌, none, some, length, get_elem?, All,
}
use go_memcache.Types.{RawResponse}
use go_memcache.Batch.{OperationResult, Prepared, success_response_required}
use go_memcache.Batch.Resolve.{
  no_tally, find, member, check_barrier, parse_batch_response, infer_quiet_result, settle,
  settle_found, settle_silent, resolve_group,
}
use go_memcache.Batch.Resolve.Outcomes.{IsAbsent, group_tally, resolve_group-settle}
use go_memcache.Batch.Resolve.Answers.{
  IsAnswer, AreDistinct, IsSilent, pushed, find-pushed, responses_of, collected,
  tally_responses-answers,
}

find-nothing : (ps : List (ℕ × RawResponse)) → All (λ p. find p.0 [] ≡ none) ps
unfolding find
find-nothing [] = tt
find-nothing (p ∷ ps) = (refl, find-nothing ps)

find-pushed_present :
    (j : ℕ) (r : RawResponse) (xs ys m : List (ℕ × RawResponse))
    → IsSilent j ys
    → find j (pushed (xs ++ (j, r) ∷ ys) m) ≡ some r
unfolding find
find-pushed_present j r [] ys m h = find-pushed j ys ((j, r) ∷ m) h ∙ ground arith
find-pushed_present j r (x ∷ xs) ys m h = find-pushed_present j r xs ys (x ∷ m) h

AreDistinct-IsSilent :
    (j : ℕ) (r : RawResponse) (xs ys : List (ℕ × RawResponse))
    → AreDistinct (xs ++ (j, r) ∷ ys)
    → IsSilent j ys
AreDistinct-IsSilent j r [] ys h = h.0
AreDistinct-IsSilent j r (x ∷ xs) ys h = AreDistinct-IsSilent j r xs ys h.1

group_tally-answers :
    (items : List Prepared) (ps : List (ℕ × RawResponse))
    → All (λ p. IsAnswer items p.0 p.1) ps
    → AreDistinct ps
    → group_tally items (responses_of ps) none ≡ collected ps no_tally
unfolding check_barrier
group_tally-answers items ps a d =
    ap (check_barrier none) (tally_responses-answers items ps no_tally a d (find-nothing ps) refl)

settle-collected :
    (written : ℕ) (p : Prepared) (ps : List (ℕ × RawResponse))
    → settle none written (collected ps no_tally) p
      ≡ settle_found none written (collected ps no_tally) p (find p.index (pushed ps []))
unfolding settle member
settle-collected written p ps = refl

settle_silent-collected :
    (written : ℕ) (p : Prepared) (ps : List (ℕ × RawResponse))
    → success_response_required p.operation ≡ false
    → settle_silent none written (collected ps no_tally) p ≡ infer_quiet_result p.operation
unfolding settle_silent
settle_silent-collected written p ps h = rw h refl

-- When a server has sent its answers, in any order, to pairwise different operations of the group,
-- and then the barrier, an operation that one of them names gets the meaning of that very answer,
-- if no later operation of the group has its number.
pub resolve_group-answered :
    (before : List Prepared) (p : Prepared) (after : List Prepared) (xs ys : List (ℕ × RawResponse))
    (r : RawResponse) (written : ℕ) (output : List OperationResult)
    → IsAbsent p.index after
    → p.index < length output
    → All (λ q. IsAnswer (before ++ p ∷ after) q.0 q.1) (xs ++ (p.index, r) ∷ ys)
    → AreDistinct (xs ++ (p.index, r) ∷ ys)
    → get_elem?
        (resolve_group
          (before ++ p ∷ after)
          (responses_of (xs ++ (p.index, r) ∷ ys))
          written
          none
          output)
        p.index
      ≡ some (parse_batch_response p.operation r)
unfolding settle_found
resolve_group-answered before p after xs ys r written output h k a d =
    let ps = xs ++ (p.index, r) ∷ ys in
    resolve_group-settle before p after (responses_of ps) written none output h k
    ∙ ap (λ t. some (settle none written t p)) (group_tally-answers (before ++ p ∷ after) ps a d)
    ∙ ap some (
        settle-collected written p ps
        ∙ ap (settle_found none written (collected ps no_tally) p)
            (find-pushed_present p.index r xs ys [] (AreDistinct-IsSilent p.index r xs ys d)))

-- When a server has sent its answers, in any order, to pairwise different operations of the group,
-- and then the barrier, an operation that no answer names and that needs none gets the result that
-- the silence of its quiet command means, if no later operation of the group has its number.
pub resolve_group-silent :
    (before : List Prepared) (p : Prepared) (after : List Prepared) (ps : List (ℕ × RawResponse))
    (written : ℕ) (output : List OperationResult)
    → IsAbsent p.index after
    → p.index < length output
    → All (λ q. IsAnswer (before ++ p ∷ after) q.0 q.1) ps
    → AreDistinct ps
    → IsSilent p.index ps
    → success_response_required p.operation ≡ false
    → get_elem? (resolve_group (before ++ p ∷ after) (responses_of ps) written none output) p.index
      ≡ some (infer_quiet_result p.operation)
unfolding settle_found find
resolve_group-silent before p after ps written output h k a d silent quiet =
    resolve_group-settle before p after (responses_of ps) written none output h k
    ∙ ap (λ t. some (settle none written t p)) (group_tally-answers (before ++ p ∷ after) ps a d)
    ∙ ap some (
        settle-collected written p ps
        ∙ ap (settle_found none written (collected ps no_tally) p)
            (find-pushed p.index ps [] silent)
        ∙ settle_silent-collected written p ps quiet)
