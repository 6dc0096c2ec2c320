-- ===== src/Batch/Resolve.antt =====
-- `resolveGroup`, `inferQuietResult` and `parseBatchResponse` of batch.go.
pub mod Answers
pub mod Complete
pub mod Outcomes
pub mod Repeated
use go_memcache.Base.{
  ℕ, Bool, true, false, not, ◌&&◌, ◌||◌, List, [], ◌∷◌, Option, none, some, Bytes, leb, ◌==◌,
  if◌then◌else◌, set, is_some,
}
use go_memcache.Base.Int.{ℤ, pos, negsuc}
use go_memcache.Errors.{
  Err, protocol, ambiguous, Result, ok, err, opaque_omitted, opaque_invalid, opaque_unexpected,
  opaque_repeated, barrier_omitted, required_omitted, pipeline_failed, arithmetic_suppressed,
}
use go_memcache.Std.Decimal.{parse_int}
use go_memcache.Types.{
  ResponseCode, GetStatus, ValueState, GetResult, MutationStatus, MutationResult, RawResponse,
}
use go_memcache.Command.Flags.{command_has_side_effect}
use go_memcache.Command.Get.{semantic_get, zero_get}
use go_memcache.Command.Set.{store_status}
use go_memcache.Command.Delete.{delete_status}
use go_memcache.Command.Arithmetic.{semantic_arithmetic}
use go_memcache.Batch.{
  Operation, get_operation, set_operation, delete_operation, arithmetic_operation, operation_key,
  OperationResult, no_result, Prepared, is_get, success_response_required,
}

-- What the loop over the responses collects: `byIndex`, the keys of `badIndex`, `barrier` and
-- `parseFailure`.
pub record Tally : Type 0 where
  pub by_index : List (ℕ × RawResponse)
  pub bad : List ℕ
  pub barrier : Bool
  pub parse_failure : Option Err

abbrev pub no_tally : Tally
no_tally = record { by_index = []; bad = []; barrier = false; parse_failure = none }

unfoldable pub find : ℕ → List (ℕ × RawResponse) → Option RawResponse
find i [] = none
find i ((j, r) ∷ m) = if j == i then some r else find i m

unfoldable pub remove : ℕ → List (ℕ × RawResponse) → List (ℕ × RawResponse)
remove i [] = []
remove i ((j, r) ∷ m) = let rest = remove i m in if j == i then rest else (j, r) ∷ rest

unfoldable pub member : ℕ → List ℕ → Bool
member i [] = false
member i (j ∷ l) = j == i || member i l

unfoldable pub is_expected : ℕ → List Prepared → Bool
is_expected i [] = false
is_expected i (p ∷ ps) = p.index == i || is_expected i ps

unfoldable pub fail_parse : Err → Tally → Tally
fail_parse e t = record t { parse_failure = some e }

-- A response with a number that the group expects.
unfoldable pub tally_expected : ℕ → RawResponse → Tally → Tally
unfolding find remove member
tally_expected i r t =
    if is_some (find i t.by_index)
    then record t { by_index = remove i t.by_index; bad = i ∷ t.bad }
    else if member i t.bad
    then t
    else record t { by_index = (i, r) ∷ t.by_index }

unfoldable pub tally_index : List Prepared → Option ℤ → RawResponse → Tally → Tally
unfolding tally_expected fail_parse is_expected
tally_index items none r t = fail_parse (protocol opaque_invalid) t
tally_index items (some (negsuc i)) r t = fail_parse (protocol opaque_unexpected) t
tally_index items (some (pos i)) r t =
    if is_expected i items then tally_expected i r t else fail_parse (protocol opaque_unexpected) t

unfoldable pub tally_opaque : List Prepared → Bytes → RawResponse → Tally → Tally
unfolding tally_index
tally_opaque items [] r t = fail_parse (protocol opaque_omitted) t
tally_opaque items (c ∷ token) r t = tally_index items (parse_int (c ∷ token)) r t

-- One round of the loop.
unfoldable pub tally_code : List Prepared → ResponseCode → RawResponse → Tally → Tally
unfolding tally_opaque
tally_code items ResponseCode.noop r t = record t { barrier = true }
tally_code items _ r t = tally_opaque items r.opaque r t

unfoldable pub tally_responses : List Prepared → List RawResponse → Tally → Tally
unfolding tally_code
tally_responses items [] t = t
tally_responses items (r ∷ rs) t = tally_responses items rs (tally_code items r.code r t)

-- The test behind the loop: an exchange without an error must have brought the barrier.
unfoldable pub check_barrier : Option Err → Tally → Tally
unfolding fail_parse
check_barrier e t =
    if not (is_some e) && not t.barrier then fail_parse (protocol barrier_omitted) t else t

-- `sideEffect && outcome.written >= item.end`.
unfoldable pub is_ambiguous : Prepared → ℕ → Bool
unfolding is_get
is_ambiguous p written =
    (not (is_get p.operation) || command_has_side_effect p.command) && leb p.to written

-- The result of an operation whose outcome is not known to be an answer.
unfoldable pub unknown_outcome : Prepared → ℕ → Err → OperationResult
unfolding is_ambiguous operation_key
unknown_outcome p written cause =
    let lost = is_ambiguous p written in
    record no_result {
      error =
          some
            (if lost then ambiguous p.command.command (operation_key p.operation) cause else cause);
      ambiguous = lost;
    }

abbrev pub get_pair : Bytes → Result GetResult → OperationResult
get_pair key (ok r) = record no_result { get = some r }
get_pair key (err e) = record no_result { get = some zero_get; error = some e }

abbrev pub batch_mutation : Bytes → MutationStatus × Option Err → RawResponse → OperationResult
batch_mutation key (status, e) wire = record no_result {
  mutation = some (record {
    key = key;
    status = status;
    cas = wire.metadata.cas;
    size = wire.metadata.size;
    returned_key = wire.key;
    opaque = [];
  });
  error = e;
}

-- The `switch` of `parseBatchResponse`.
unfoldable pub typed_response : Operation → RawResponse → OperationResult
typed_response (get_operation key o) wire = get_pair key (semantic_get key o wire)
typed_response (set_operation key v o) wire =
    batch_mutation key (store_status wire.code o.mode) wire
typed_response (delete_operation key o) wire = batch_mutation key (delete_status wire.code) wire
typed_response (arithmetic_operation key o) wire =
    let (r, e) = semantic_arithmetic key o wire in
    record no_result { arithmetic = some r; error = e }

unfoldable pub or_parse_error : Option Err → OperationResult → OperationResult
or_parse_error none r = r
or_parse_error (some e) r = record no_result { error = some e }

-- `parseBatchResponse`: the opaque token is internal and is cleared.
unfoldable pub parse_batch_response : Operation → RawResponse → OperationResult
unfolding typed_response or_parse_error
parse_batch_response op wire =
    or_parse_error wire.parse_err (typed_response op (record wire { opaque = [] }))

abbrev pub applied_result : Bytes → MutationResult
applied_result key = record {
  key = key;
  status = MutationStatus.applied;
  cas = none;
  size = none;
  returned_key = none;
  opaque = [];
}

-- `inferQuietResult`: what the silence of a quiet command means.
unfoldable pub infer_quiet_result : Operation → OperationResult
infer_quiet_result (get_operation key o) = record no_result {
  get =
      some
        (record zero_get { key = key; status = GetStatus.miss; value_state = ValueState.missing });
}
infer_quiet_result (set_operation key v o) = record no_result {
  mutation = some (applied_result key);
}
infer_quiet_result (delete_operation key o) = record no_result {
  mutation = some (applied_result key);
}
infer_quiet_result (arithmetic_operation key o) = record no_result {
  error = some (protocol arithmetic_suppressed);
}

-- The cause of an operation without an answer: the exchange's error, or the parse failure.
unfoldable pub cause_of : Option Err → Option Err → Err
cause_of (some e) failure = e
cause_of none (some e) = e
cause_of none none = protocol pipeline_failed

-- An operation that no response names.
unfoldable pub settle_silent : Option Err → ℕ → Tally → Prepared → OperationResult
unfolding unknown_outcome infer_quiet_result cause_of success_response_required
settle_silent e written t p =
    if t.barrier && not (is_some t.parse_failure)
    then (if not (success_response_required p.operation)
        then infer_quiet_result p.operation
        else unknown_outcome p written (protocol required_omitted))
    else unknown_outcome p written (cause_of e t.parse_failure)

unfoldable pub settle_found :
    Option Err → ℕ → Tally → Prepared → Option RawResponse → OperationResult
unfolding settle_silent parse_batch_response
settle_found e written t p none = settle_silent e written t p
settle_found e written t p (some r) = parse_batch_response p.operation r

-- One round of the loop over the items.
unfoldable pub settle : Option Err → ℕ → Tally → Prepared → OperationResult
unfolding settle_found member find
settle e written t p =
    if member p.index t.bad
    then unknown_outcome p written (protocol opaque_repeated)
    else settle_found e written t p (find p.index t.by_index)

unfoldable pub settle_items :
    Option Err → ℕ → Tally → List Prepared → List OperationResult → List OperationResult
unfolding settle
settle_items e written t [] output = output
settle_items e written t (p ∷ ps) output =
    settle_items e written t ps (set output p.index (settle e written t p))

-- `resolveGroup`.
unfoldable pub resolve_group :
    List Prepared → List RawResponse → ℕ → Option Err → List OperationResult → List OperationResult
unfolding tally_responses check_barrier settle_items
resolve_group items responses written e output =
    settle_items e written (check_barrier e (tally_responses items responses no_tally)) items output
