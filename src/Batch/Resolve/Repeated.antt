-- ===== src/Batch/Resolve/Repeated.antt =====
-- An operation for which a server sends more than one answer.
use go_memcache.Base.{
  ℕ, ◌<◌, ◌≡◌, ◌≢◌, refl, ◌∙◌, ap, arith, ◌==◌, Bool, true, ◌||◌, Bool-cases, inl, inr, List, [],
  ◌∷◌, ◌++◌, Option, none, some, Bytes, length, get_elem?, is_some, if◌then◌else◌,
}
use go_memcache.Base.Int.{ℤ, pos, negsuc}
use go_memcache.Errors.{Err, protocol, ambiguous, opaque_repeated}
use go_memcache.Std.Decimal.{parse_int}
use go_memcache.Types.{ResponseCode, RawResponse}
use go_memcache.Batch.{OperationResult, Prepared, operation_key, no_result}
use go_memcache.Batch.Resolve.{
  Tally, no_tally, find, remove, member, is_expected, tally_expected, tally_index, tally_opaque,
  tally_code, tally_responses, check_barrier, is_ambiguous, unknown_outcome, settle, resolve_group,
}
use go_memcache.Batch.Resolve.Answers.{IsAnswer, tally_code-expected}
use go_memcache.Batch.Resolve.Outcomes.{IsAbsent, group_tally, resolve_group-settle}

-- The loop has seen an answer to the operation, or more than one.
abbrev is_seen : ℕ → Tally → Bool
is_seen j t = member j t.bad || is_some (find j t.by_index)

abbrev is_bad : ℕ → Tally → Bool
is_bad j t = member j t.bad

find-remove-other : (i j : ℕ) (m : List (ℕ × RawResponse)) → i ≢ j → find j (remove i m) ≡ find j m
unfolding find remove
find-remove-other i j [] h = refl
find-remove-other i j ((k, r) ∷ m) h = ground (arith, find-remove-other i j m h)

-- What both say is kept by every answer to an operation.
seen-tally_expected :
    (i j : ℕ) (r : RawResponse) (t : Tally)
    → is_seen j t ≡ true
    → is_seen j (tally_expected i r t) ≡ true
unfolding tally_expected member find
seen-tally_expected i j r t h = elim (Bool-cases (i == j)) [
  | inl e ↦ ground (arith)
  | inr e ↦ ground (arith, find-remove-other i j t.by_index (λ d. ground arith))
]

bad-tally_expected :
    (i j : ℕ) (r : RawResponse) (t : Tally)
    → is_bad j t ≡ true
    → is_bad j (tally_expected i r t) ≡ true
unfolding tally_expected member
bad-tally_expected i j r t h = ground arith

module _ (P : Tally → Bool)
    (fails : (e : Err) (t : Tally) → P t ≡ true → P (record t { parse_failure = some e }) ≡ true)
    (ends : (t : Tally) → P t ≡ true → P (record t { barrier = true }) ≡ true)
    (counts : (i : ℕ) (r : RawResponse) (t : Tally)
      → P t ≡ true
      → P (tally_expected i r t) ≡ true) where
  tally_index-keeps :
      (items : List Prepared) (i : Option ℤ) (r : RawResponse) (t : Tally)
      → P t ≡ true
      → P (tally_index items i r t) ≡ true
  unfolding tally_index go_memcache.Batch.Resolve.fail_parse
  tally_index-keeps items none r t h = fails _ t h
  tally_index-keeps items (some (negsuc i)) r t h = fails _ t h
  tally_index-keeps items (some (pos i)) r t h = elim (Bool-cases (is_expected i items)) [
    | inl e ↦ rw e (counts i r t h)
    | inr e ↦ rw e (fails _ t h)
  ]

  tally_opaque-keeps :
      (items : List Prepared) (token : Bytes) (r : RawResponse) (t : Tally)
      → P t ≡ true
      → P (tally_opaque items token r t) ≡ true
  unfolding tally_opaque go_memcache.Batch.Resolve.fail_parse
  tally_opaque-keeps items [] r t h = fails _ t h
  tally_opaque-keeps items (c ∷ token) r t h = tally_index-keeps items (parse_int (c ∷ token)) r t h

  tally_code-keeps :
      (items : List Prepared) (code : ResponseCode) (r : RawResponse) (t : Tally)
      → P t ≡ true
      → P (tally_code items code r t) ≡ true
  unfolding tally_code
  tally_code-keeps items ResponseCode.noop r t h = ends t h
  tally_code-keeps items _ r t h = tally_opaque-keeps items r.opaque r t h

  -- What every response keeps holds behind them all, if it holds behind one of them.
  tally_responses-keeps :
      (items : List Prepared) (rs : List RawResponse) (t : Tally)
      → P t ≡ true
      → P (tally_responses items rs t) ≡ true
  unfolding tally_responses
  tally_responses-keeps items [] t h = h
  tally_responses-keeps items (r ∷ rs) t h =
      tally_responses-keeps items rs (tally_code items r.code r t)
        (tally_code-keeps items r.code r t h)

tally_expected-seen :
    (j : ℕ) (r : RawResponse) (t : Tally) → is_seen j (tally_expected j r t) ≡ true
unfolding tally_expected member find
tally_expected-seen j r t = ground arith

tally_expected-bad :
    (j : ℕ) (r : RawResponse) (t : Tally)
    → is_seen j t ≡ true
    → is_bad j (tally_expected j r t) ≡ true
unfolding tally_expected member
tally_expected-bad j r t h = ground arith

append-tally :
    (items : List Prepared) (rs qs : List RawResponse) (t : Tally)
    → tally_responses items (rs ++ qs) t ≡ tally_responses items qs (tally_responses items rs t)
unfolding tally_responses
append-tally items [] qs t = refl
append-tally items (r ∷ rs) qs t = append-tally items rs qs (tally_code items r.code r t)

answer-tally :
    (items : List Prepared) (j : ℕ) (q : RawResponse) (rs : List RawResponse) (t : Tally)
    → IsAnswer items j q
    → tally_responses items (q ∷ rs) t ≡ tally_responses items rs (tally_expected j q t)
unfolding tally_responses
answer-tally items j q rs t a = ap (tally_responses items rs) (tally_code-expected items j q t a)

-- Two answers to an operation among the responses.
repeated-bad :
    (items : List Prepared) (j : ℕ) (before between after : List RawResponse) (q r : RawResponse)
    (t : Tally)
    → IsAnswer items j q
    → IsAnswer items j r
    → is_bad j (tally_responses items (before ++ q ∷ (between ++ r ∷ after)) t) ≡ true
repeated-bad items j before between after q r t a b =
    let u = tally_responses items before t in
    let u1 = tally_expected j q u in
    let u2 = tally_responses items between u1 in
    let seen1 : is_seen j u1 ≡ true = tally_expected-seen j q u in
    let seen2 : is_seen j u2 ≡ true =
      tally_responses-keeps (is_seen j) (λ e v h. h) (λ v h. h)
        (λ i x v. seen-tally_expected i j x v) items between u1 seen1 in
    let bad3 : is_bad j (tally_expected j r u2) ≡ true = tally_expected-bad j r u2 seen2 in
    rw
      (
        append-tally items before (q ∷ (between ++ r ∷ after)) t,
        answer-tally items j q (between ++ r ∷ after) u a,
        append-tally items between (r ∷ after) u1,
        answer-tally items j r after u2 b,
      )
      (tally_responses-keeps (is_bad j) (λ e v h. h) (λ v h. h)
        (λ i x v. bad-tally_expected i j x v) items after (tally_expected j r u2) bad3)

check_barrier-bad :
    (e : Option Err) (j : ℕ) (t : Tally) → is_bad j t ≡ true → is_bad j (check_barrier e t) ≡ true
unfolding check_barrier go_memcache.Batch.Resolve.fail_parse
check_barrier-bad e j t h = ground arith

settle-bad :
    (e : Option Err) (written : ℕ) (t : Tally) (p : Prepared)
    → is_bad p.index t ≡ true
    → settle e written t p ≡ record no_result {
      error = some (
          if is_ambiguous p written
          then ambiguous p.command.command (operation_key p.operation) (protocol opaque_repeated)
          else protocol opaque_repeated);
      ambiguous = is_ambiguous p written;
    }
unfolding settle unknown_outcome
settle-bad e written t p h = rw h refl

-- When a server has sent two answers to an operation of the group, or more, with any other responses
-- around them and whatever the end of the exchange, none of them is believed: the operation, if no
-- later one of the group has its number, gets no outcome but the error that its opaque token was
-- repeated, in that of an ambiguous write if the operation may have had an effect and all its bytes
-- were written.
pub resolve_group-repeated :
    (pre : List Prepared) (p : Prepared) (post : List Prepared)
    (before between after : List RawResponse) (q r : RawResponse) (written : ℕ) (e : Option Err)
    (output : List OperationResult)
    → IsAbsent p.index post
    → p.index < length output
    → IsAnswer (pre ++ p ∷ post) p.index q
    → IsAnswer (pre ++ p ∷ post) p.index r
    → get_elem?
        (resolve_group (pre ++ p ∷ post) (before ++ q ∷ (between ++ r ∷ after)) written e output)
        p.index
      ≡ some (record no_result {
        error = some (
            if is_ambiguous p written
            then ambiguous p.command.command (operation_key p.operation) (protocol opaque_repeated)
            else protocol opaque_repeated);
        ambiguous = is_ambiguous p written;
      })
resolve_group-repeated pre p post before between after q r written e output h k a b =
    let responses = before ++ q ∷ (between ++ r ∷ after) in
    let items = pre ++ p ∷ post in
    let bad =
      check_barrier-bad e p.index (tally_responses items responses no_tally)
        (repeated-bad items p.index before between after q r no_tally a b) in
    resolve_group-settle pre p post responses written e output h k
    ∙ ap some (settle-bad e written (group_tally items responses e) p bad)
