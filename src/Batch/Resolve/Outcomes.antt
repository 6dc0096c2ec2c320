-- ===== src/Batch/Resolve/Outcomes.antt =====
-- The results that `resolveGroup` writes, and when one of them says that a write is ambiguous.
use mathlib.Core.Path.{subst}
use go_memcache.Base.{
  ℕ, ◌≤◌, ◌<◌, ◌≡◌, ◌≢◌, refl, ◌∙◌, ap, arith, Bool, true, false, not, ◌||◌, List, [], ◌∷◌, ◌++◌,
  Option, none, some, length, set, get_elem?, All, length-set, get_elem?-set-same,
  get_elem?-set-other, if◌then◌else◌,
}
use go_memcache.Errors.{Err, ambiguous}
use go_memcache.Types.{RawResponse}
use go_memcache.Command.Flags.{command_has_side_effect}
use go_memcache.Batch.{Operation, OperationResult, Prepared, is_get, operation_key}
use go_memcache.Batch.Resolve.{
  Tally, no_tally, check_barrier, tally_responses, settle, settle_found, settle_silent,
  settle_items, resolve_group, is_ambiguous, unknown_outcome, parse_batch_response, typed_response,
  or_parse_error, infer_quiet_result, find,
}

-- An ambiguous result: the operation may have had an effect, all of it was written, and the error says so.
pub record IsLost (p : Prepared) (written : ℕ) (r : OperationResult) : Type 0 where
  pub effect : (not (is_get p.operation) || command_has_side_effect p.command) ≡ true
  pub sent : p.to ≤ written
  pub cause : Err
  pub error : r.error ≡ some (ambiguous p.command.command (operation_key p.operation) cause)

unknown_outcome-IsLost :
    (p : Prepared) (written : ℕ) (e : Err)
    → (unknown_outcome p written e).ambiguous ≡ true
    → IsLost p written (unknown_outcome p written e)
unfolding unknown_outcome is_ambiguous
unknown_outcome-IsLost p written e h = record {
  effect = ground arith;
  sent = ground arith;
  cause = e;
  error = ground arith;
}

infer_quiet_result-definite : (op : Operation) → (infer_quiet_result op).ambiguous ≡ false
unfolding infer_quiet_result
infer_quiet_result-definite op = ground arith

typed_response-definite :
    (op : Operation) (r : RawResponse) → (typed_response op r).ambiguous ≡ false
unfolding typed_response
typed_response-definite op r = ground arith

parse_batch_response-definite :
    (op : Operation) (r : RawResponse) → (parse_batch_response op r).ambiguous ≡ false
unfolding parse_batch_response or_parse_error
parse_batch_response-definite op r =
    ground (arith, typed_response-definite op (record r { opaque = [] }))

-- What every result of the operation satisfies.
abbrev Sound : Prepared → ℕ → OperationResult → Type 0
Sound p written r = r.ambiguous ≡ true → IsLost p written r

Sound-if :
    (p : Prepared) (written : ℕ) (b : Bool) (x y : OperationResult)
    → Sound p written x
    → Sound p written y
    → Sound p written (if b then x else y)
Sound-if p written true x y hx hy = hx
Sound-if p written false x y hx hy = hy

Sound-definite :
    (p : Prepared) (written : ℕ) (r : OperationResult) → r.ambiguous ≡ false → Sound p written r
Sound-definite p written r h k = cc

settle_silent-Sound :
    (e : Option Err) (written : ℕ) (t : Tally) (p : Prepared)
    → Sound p written (settle_silent e written t p)
unfolding settle_silent
settle_silent-Sound e written t p =
    Sound-if p written _ _ _
      (Sound-if p written _ _ _
        (Sound-definite p written (infer_quiet_result p.operation)
          (infer_quiet_result-definite p.operation))
        (unknown_outcome-IsLost p written _))
      (unknown_outcome-IsLost p written _)

settle_found-Sound :
    (e : Option Err) (written : ℕ) (t : Tally) (p : Prepared) (found : Option RawResponse)
    → Sound p written (settle_found e written t p found)
unfolding settle_found
settle_found-Sound e written t p none = settle_silent-Sound e written t p
settle_found-Sound e written t p (some r) =
    Sound-definite p written (parse_batch_response p.operation r)
      (parse_batch_response-definite p.operation r)

settle-Sound :
    (e : Option Err) (written : ℕ) (t : Tally) (p : Prepared)
    → Sound p written (settle e written t p)
unfolding settle
settle-Sound e written t p =
    Sound-if p written _ _ _ (unknown_outcome-IsLost p written _)
      (settle_found-Sound e written t p (find p.index t.by_index))

-- No item of the list has the number.
abbrev pub IsAbsent : ℕ → List Prepared → Type 0
IsAbsent i = All (λ p. p.index ≢ i)

settle_items-absent :
    (e : Option Err) (written : ℕ) (t : Tally) (items : List Prepared)
    (output : List OperationResult) (i : ℕ)
    → IsAbsent i items
    → get_elem? (settle_items e written t items output) i ≡ get_elem? output i
unfolding settle_items
settle_items-absent e written t [] output i h = refl
settle_items-absent e written t (p ∷ ps) output i h =
    settle_items-absent e written t ps (set output p.index (settle e written t p)) i h.1
    ∙ get_elem?-set-other output p.index i (settle e written t p) h.0

settle_items-present :
    (e : Option Err) (written : ℕ) (t : Tally) (before : List Prepared) (p : Prepared)
    (after : List Prepared) (output : List OperationResult)
    → IsAbsent p.index after
    → p.index < length output
    → get_elem? (settle_items e written t (before ++ p ∷ after) output) p.index
      ≡ some (settle e written t p)
unfolding settle_items
settle_items-present e written t [] p after output h k =
    settle_items-absent e written t after (set output p.index (settle e written t p)) p.index h
    ∙ get_elem?-set-same output p.index (settle e written t p) k
settle_items-present e written t (q ∷ before) p after output h k =
    settle_items-present e written t before p after (set output q.index (settle e written t q)) h
      (rw (length-set output q.index (settle e written t q)) k)

-- The outcome of a group leaves the results of all other operations as they were.
resolve_group-absent :
    (items : List Prepared) (responses : List RawResponse) (written : ℕ) (e : Option Err)
    (output : List OperationResult) (i : ℕ)
    → IsAbsent i items
    → get_elem? (resolve_group items responses written e output) i ≡ get_elem? output i
unfolding resolve_group
resolve_group-absent items responses written e output i h =
    settle_items-absent e written (check_barrier e (tally_responses items responses no_tally)) items
      output i h

-- What the outcome of a group has shown: its responses by number, and whether the barrier came.
abbrev pub group_tally : List Prepared → List RawResponse → Option Err → Tally
group_tally items responses e = check_barrier e (tally_responses items responses no_tally)

-- The outcome of a group gives each of its operations, at the operation's own place in the results,
-- what the responses as a whole say of it, if no later operation of the group has its number.
pub resolve_group-settle :
    (before : List Prepared) (p : Prepared) (after : List Prepared) (responses : List RawResponse)
    (written : ℕ) (e : Option Err) (output : List OperationResult)
    → IsAbsent p.index after
    → p.index < length output
    → get_elem? (resolve_group (before ++ p ∷ after) responses written e output) p.index
      ≡ some (settle e written (group_tally (before ++ p ∷ after) responses e) p)
unfolding resolve_group
resolve_group-settle before p after responses written e output h k =
    settle_items-present e written (group_tally (before ++ p ∷ after) responses e) before p after
      output h k

-- Whatever the server sent, the result of an operation whose number no later operation of its group
-- has is only ambiguous if the operation may have had an effect and all its bytes were written, and
-- then its error says that the write is ambiguous, with the operation's command and key.
pub resolve_group-IsLost :
    (before : List Prepared) (p : Prepared) (after : List Prepared) (responses : List RawResponse)
    (written : ℕ) (e : Option Err) (output : List OperationResult) {r : OperationResult}
    → IsAbsent p.index after
    → p.index < length output
    → get_elem? (resolve_group (before ++ p ∷ after) responses written e output) p.index ≡ some r
    → r.ambiguous ≡ true
    → IsLost p written r
resolve_group-IsLost before p after responses written e output {r} h k found lost =
    let settled = resolve_group-settle before p after responses written e output h k in
    let t = group_tally (before ++ p ∷ after) responses e in
    let same_result : settle e written t p ≡ r = cc in
    subst (IsLost p written) same_result
      (settle-Sound e written t p (ap (λ x. x.ambiguous) same_result ∙ lost))
