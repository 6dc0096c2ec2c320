-- ===== src/Tests/Collections.antt =====
-- The collection verbs at concrete inputs.
use go_memcache.Base.{◌≡◌, ℕ, refl, [], ◌∷◌, some, map, codes, Bytes, List, length}
use go_memcache.Base.Int.{pos}
use go_memcache.Errors.{Err, Result, ok, err}
use go_memcache.Types.{ResponseCode, RawResponse, empty_response, no_set_options, MetaGetOptions}
use go_memcache.Codec.{Codec, Payload, raw, bytes}
use go_memcache.Client.State.{answered, Network}
use go_memcache.Batch.{Submitted, value, get_operation, set_operation, OperationResult, no_result}
use go_memcache.Batch.Resolve.{parse_batch_response}
use go_memcache.Batch.Run.{batch}
use go_memcache.Verbs.Get.{base_read_options}
use go_memcache.Verbs.Collections.{Collected, lookup, get_many, set_many, set_operations}
use go_memcache.Verbs.Collections.Results.{
  is_kept, is_taken, errors, pick, first_of, report_all, set_many-results,
}
use go_memcache.Verbs.Collections.Found.{get_many-found}
use go_memcache.Tests.Fixtures.{client, degraded, broken, failing, answering, start}

-- Values are numbers of one byte.
abbrev codec : Codec ℕ
codec = record { marshal = λ n. ok (n ∷ []); unmarshal = λ b. ok (length b) }

abbrev entries : List (Bytes × Payload ℕ)
entries = (codes "k", raw (codes "v")) ∷ []

abbrev hit : RawResponse
hit = record (empty_response ResponseCode.value) { value = codes "v"; opaque = codes "0" }

-- The server answers the first operation with the hit, and the barrier.
abbrev hitting : Network (Unit {0})
hitting = record (answering hit) {
  exchange =
      λ pool ctx payload stop w. (answered hit (empty_response ResponseCode.noop ∷ []) 20, w);
}

abbrev lost_result : OperationResult
lost_result = record no_result { error = some broken }

abbrev set_operation_k : Submitted
set_operation_k =
    value (set_operation (codes "k") (codes "v") (record no_set_options { ttl = pos 60 }))

set_operations-entries : set_operations codec (pos 60) entries ≡ ok (set_operation_k ∷ [])
unfolding set_operations go_memcache.Command.Get.is_empty go_memcache.Codec.encode
set_operations-entries = refl

set_batch : batch (failing 0) degraded (set_operation_k ∷ []) start ≡ (ok (lost_result ∷ []), start)
unfolding go_memcache.Batch.prepare go_memcache.Batch.quiet_command
    go_memcache.Batch.Prepare.plan_batch go_memcache.Batch.Resolve.resolve_group
    go_memcache.Batch.Run.batch go_memcache.Command.Set.set_flags go_memcache.Command.Set.build_set
    go_memcache.Command.Flags.uint_flag go_memcache.Command.Flags.expiration_flag
    go_memcache.Command.Flags.not_positive go_memcache.Command.Flags.opaque_flags
    go_memcache.Command.Flags.append_opaque go_memcache.Wire.encode_key
    go_memcache.Wire.validate_opaque go_memcache.Wire.is_supported go_memcache.Wire.key_flags
    go_memcache.Wire.write_flags go_memcache.Wire.size_part go_memcache.Wire.value_part
    go_memcache.Wire.check_command go_memcache.Wire.frame_line go_memcache.Wire.marshal_key
    go_memcache.Wire.marshal go_memcache.Client.new_servers go_memcache.Client.server
    go_memcache.Wire.Char.is_control go_memcache.Std.Decimal.format_int
    go_memcache.Options.Router.rendezvous_pick
set_batch = refl

set_many-results_example :
    set_many (failing 0) degraded codec entries (pos 60000000000) start
    ≡ (ok tt, record start { reported = broken ∷ [] })
unfolding go_memcache.Client.Execute.absorb_or go_memcache.Types.Expiration.expires_in
    go_memcache.Options.resolve_ttl go_memcache.Errors.as_ambiguous go_memcache.Errors.as_usage
    go_memcache.Verbs.Collections.Results.errors go_memcache.Verbs.Collections.Results.pick
    go_memcache.Verbs.Collections.Results.report_all
set_many-results_example =
    set_many-results (failing 0) degraded codec entries (pos 60000000000) start start refl
      set_operations-entries set_batch

abbrev get_result : OperationResult
get_result = parse_batch_response (get_operation (codes "k") base_read_options) hit

get_batch :
    batch hitting client
      (map (λ key. value (get_operation key base_read_options)) (codes "k" ∷ []))
      start
    ≡ (ok (get_result ∷ []), start)
unfolding go_memcache.Batch.prepare go_memcache.Batch.quiet_command
    go_memcache.Batch.Prepare.plan_batch go_memcache.Batch.Resolve.resolve_group
    go_memcache.Batch.Run.batch go_memcache.Command.Get.get_flags go_memcache.Command.Get.build_get
    go_memcache.Command.Flags.not_positive go_memcache.Command.Flags.opaque_flags
    go_memcache.Command.Flags.append_opaque go_memcache.Wire.encode_key
    go_memcache.Wire.validate_opaque go_memcache.Wire.is_supported go_memcache.Wire.key_flags
    go_memcache.Wire.write_flags go_memcache.Wire.check_command go_memcache.Wire.frame_line
    go_memcache.Wire.marshal_key go_memcache.Wire.marshal go_memcache.Client.new_servers
    go_memcache.Client.server go_memcache.Wire.Char.is_control go_memcache.Std.Decimal.format_int
    go_memcache.Std.Decimal.parse_int go_memcache.Options.Router.rendezvous_pick
get_batch = refl

get_many-found_example :
    (f : Collected ℕ) × ((get_many hitting client codec bytes (codes "k" ∷ []) [] start).0 ≡ ok f)
    × (lookup (codes "k") f.found ≡ some (raw (codes "v")))
unfolding go_memcache.Batch.Resolve.resolve_group go_memcache.Command.Get.semantic_get
    go_memcache.Types.is_hit go_memcache.Options.call_policy go_memcache.Options.apply_gets
    go_memcache.Verbs.Collections.get_many go_memcache.Codec.decode
get_many-found_example =
    get_many-found hitting client codec bytes [] [] [] (codes "k") [] [] get_result start start refl
      refl get_batch refl tt tt
