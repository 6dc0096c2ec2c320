-- ===== src/Tests/Batch.antt =====
-- The results of a batch at concrete inputs.
use go_memcache.Base.{ℕ, ◌≡◌, refl, arith, false, true, List, [], ◌∷◌, some, none, codes, get_elem?}
use go_memcache.Types.{ResponseCode, RawResponse, empty_response, no_delete_options}
use go_memcache.Std.Decimal.{format_uint}
use go_memcache.Verbs.Meta.{is_noop}
use go_memcache.Batch.{
  delete_operation, Prepared, OperationResult, no_result, success_response_required,
}
use go_memcache.Batch.Resolve.{is_expected, parse_batch_response, infer_quiet_result, resolve_group}
use go_memcache.Batch.Resolve.Answers.{IsAnswer, responses_of}
use go_memcache.Errors.{ambiguous, protocol, opaque_repeated}
use go_memcache.Batch.Resolve.Repeated.{resolve_group-repeated}
use go_memcache.Batch.Resolve.Complete.{resolve_group-answered, resolve_group-silent}

-- A delete with a number.
abbrev item : ℕ → Prepared
item index = record {
  index = index;
  operation = delete_operation (codes "k") no_delete_options;
  command = record {
    command = codes "md";
    key = codes "k";
    flags = [];
    value = [];
    has_value = false;
  };
  from = 0;
  to = 11;
}

abbrev not_found : RawResponse
not_found = record (empty_response ResponseCode.not_found) { opaque = codes "1" }

abbrev empty_results : List OperationResult
empty_results = no_result ∷ no_result ∷ []

not_found-IsAnswer : IsAnswer (item 0 ∷ item 1 ∷ []) 1 not_found
unfolding is_noop format_uint is_expected
not_found-IsAnswer = record {
  no_barrier = refl;
  token = refl;
  small = omega arith;
  expected = refl;
}

resolve_group-answered_example :
    get_elem?
      (resolve_group
        (item 0 ∷ item 1 ∷ [])
        (responses_of ((1, not_found) ∷ []))
        22
        none
        empty_results)
      1
    ≡ some (parse_batch_response (item 1).operation not_found)
resolve_group-answered_example =
    resolve_group-answered (item 0 ∷ []) (item 1) [] [] [] not_found 22 empty_results tt
      (omega arith) (not_found-IsAnswer, tt) (tt, tt)

resolve_group-silent_example :
    get_elem?
      (resolve_group
        (item 0 ∷ item 1 ∷ [])
        (responses_of ((1, not_found) ∷ []))
        22
        none
        empty_results)
      0
    ≡ some (infer_quiet_result (item 0).operation)
unfolding success_response_required
resolve_group-silent_example =
    resolve_group-silent [] (item 0) (item 1 ∷ []) ((1, not_found) ∷ []) 22 empty_results
      ((λ e. omega (arith, e)), tt) (omega arith) (not_found-IsAnswer, tt) (tt, tt)
      ((λ e. omega (arith, e)), tt) refl

-- Both answers name the second operation, whose bytes end at the eleventh.
resolve_group-repeated_example :
    get_elem?
      (resolve_group (item 0 ∷ item 1 ∷ []) (not_found ∷ not_found ∷ []) 22 none empty_results)
      1
    ≡ some (record no_result {
      error = some (ambiguous (codes "md") (codes "k") (protocol opaque_repeated));
      ambiguous = true;
    })
unfolding go_memcache.Batch.Resolve.is_ambiguous go_memcache.Batch.is_get
    go_memcache.Batch.operation_key
resolve_group-repeated_example =
    resolve_group-repeated (item 0 ∷ []) (item 1) [] [] [] [] not_found not_found 22 none
      empty_results tt (omega arith) not_found-IsAnswer not_found-IsAnswer
