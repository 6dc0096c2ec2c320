-- ===== src/Tests/Client.antt =====
-- `executeMeta` and `batch` at concrete inputs.
use go_memcache.Base.{
  ◌≡◌, ◌↔◌, true, false, refl, arith, List, [], ◌∷◌, some, Bytes, codes, All, length,
}
use go_memcache.Base.Int.{pos}
use go_memcache.Errors.{Err, plain, ambiguous, ok, err, as_ambiguous, as_server, batch_nil}
use go_memcache.Std.Decimal.{format_uint, parse_int}
use go_memcache.Types.{no_delete_options}
use go_memcache.Wire.{MetaCommand, marshal}
use go_memcache.Command.Flags.{command_has_side_effect}
use go_memcache.Client.Prepare.{prepare_meta}
use go_memcache.Client.State.{caller}
use go_memcache.Client.Execute.{execute_meta}
use go_memcache.Client.Execute.Outcome.{execute_meta-ambiguous_iff}
use go_memcache.Batch.{
  Operation, delete_operation, get_operation, Submitted, value, nil_interface, Prepared,
  OperationResult, no_result, operation_key, quiet_command,
}
use go_memcache.Batch.Framable.{marshal-prepare}
use go_memcache.Batch.Opaque.{opaque_flags_of, quiet_command-opaque}
use go_memcache.Batch.Prepare.{
  Group, plan_batch, group_from, order_groups, prepare_one, normalize, at_operation, add_item,
  frame_items,
}
use go_memcache.Batch.Prepare.Slices.{IsPlaced, plan_batch-IsPlaced}
use go_memcache.Batch.Resolve.{resolve_group}
use go_memcache.Batch.Resolve.Outcomes.{IsLost, resolve_group-IsLost}
use go_memcache.Batch.Run.{batch}
use go_memcache.Client.{new_client}
use go_memcache.Batch.Run.Answered.{IsAnswered, batch-IsAnswered}
use go_memcache.Batch.Run.AllOrNothing.{batch-err}
use go_memcache.Tests.Fixtures.{client, broken, failing, start}

abbrev removal : MetaCommand
removal = record {
  command = codes "md";
  key = codes "k";
  flags = [];
  value = [];
  has_value = false;
}

prepare_meta-removal : prepare_meta client removal ≡ ok (codes "md k\r\n", 0)
unfolding prepare_meta marshal go_memcache.Wire.check_command go_memcache.Wire.is_supported
    go_memcache.Wire.encode_key go_memcache.Wire.Char.is_control go_memcache.Wire.marshal_key
    go_memcache.Wire.write_flags go_memcache.Wire.key_flags go_memcache.Wire.frame_line
    go_memcache.Wire.size_part go_memcache.Wire.value_part go_memcache.Client.server
    go_memcache.Client.in_range go_memcache.Options.default_config
    go_memcache.Options.Router.rendezvous_pick
prepare_meta-removal = refl

execute_meta-ambiguous_iff_example :
    (e : Err) × (execute_meta (failing 6) client caller removal start ≡ (err e, start))
    × ((as_ambiguous e ≡ true) ↔ (
        (as_server broken ≡ false)
        × (6 ≡ length (codes "md k\r\n"))
        × (command_has_side_effect removal ≡ true)))
unfolding as_ambiguous
execute_meta-ambiguous_iff_example =
    execute_meta-ambiguous_iff (failing 6) client caller removal start prepare_meta-removal refl
      refl

-- The second operation of a batch, a delete, in bytes 10 to 22.
abbrev second_item : Prepared
second_item = record {
  index = 1;
  operation = delete_operation (codes "k") no_delete_options;
  command = removal;
  from = 10;
  to = 22;
}

quiet_command-opaque_example :
    (opaque_flags_of (quiet_command second_item).flags ≡ (b'O' ∷ format_uint 1) ∷ [])
    × (parse_int (format_uint 1) ≡ some (pos 1))
quiet_command-opaque_example = quiet_command-opaque second_item (omega arith)

abbrev two_results : List OperationResult
two_results = no_result ∷ no_result ∷ []

resolve_group-IsLost_example : IsLost second_item 22 (record no_result {
  error = some (ambiguous (codes "md") (codes "k") broken);
  ambiguous = true;
})
unfolding resolve_group
resolve_group-IsLost_example =
    resolve_group-IsLost [] second_item [] [] 22 (some broken) two_results tt (omega arith) refl
      refl

abbrev submitted : List Submitted
submitted = value (delete_operation (codes "k") no_delete_options) ∷ []

abbrev sent_bytes : Bytes
sent_bytes = codes "md k O0 q\r\nmn\r\n"

abbrev planned : List Group
planned =
    record {
      pool = 0;
      items = record second_item { index = 0; from = 0; to = 11 } ∷ [];
      payload = sent_bytes;
    }
    ∷ []

plan_batch-submitted : plan_batch client submitted ≡ ok planned
unfolding plan_batch group_from order_groups prepare_one normalize at_operation add_item frame_items
    go_memcache.Batch.prepare go_memcache.Command.Delete.build_delete
    go_memcache.Command.Flags.append_opaque go_memcache.Wire.validate_opaque
    go_memcache.Command.Delete.delete_flags go_memcache.Command.Flags.opaque_flags operation_key
    quiet_command go_memcache.Batch.without_opaque go_memcache.Batch.index_flag
    go_memcache.Batch.quiet_flags go_memcache.Batch.is_get
    go_memcache.Batch.success_response_required format_uint marshal go_memcache.Wire.check_command
    go_memcache.Wire.is_supported go_memcache.Wire.encode_key go_memcache.Wire.Char.is_control
    go_memcache.Wire.marshal_key go_memcache.Wire.write_flags go_memcache.Wire.key_flags
    go_memcache.Wire.frame_line go_memcache.Wire.size_part go_memcache.Wire.value_part
    go_memcache.Client.server go_memcache.Client.in_range go_memcache.Options.default_config
    go_memcache.Options.Router.rendezvous_pick
plan_batch-submitted = refl

plan_batch-IsPlaced_example : All (λ g. All (IsPlaced g.payload) g.items) planned
plan_batch-IsPlaced_example = plan_batch-IsPlaced client submitted plan_batch-submitted

batch-err_example :
    (plan_batch client (nil_interface ∷ []) ≡ err (plain batch_nil))
    × ((batch (failing 0) client (nil_interface ∷ []) start).1 ≡ start)
unfolding batch plan_batch
batch-err_example = batch-err (failing 0) client (nil_interface ∷ []) start refl

marshal-prepare_example : (out : Bytes) × (marshal removal ≡ ok out)
unfolding go_memcache.Batch.prepare go_memcache.Command.Delete.build_delete
    go_memcache.Command.Delete.delete_flags go_memcache.Command.Flags.append_opaque
    go_memcache.Command.Flags.opaque_flags go_memcache.Wire.validate_opaque operation_key
    go_memcache.Wire.encode_key go_memcache.Wire.Char.is_control
marshal-prepare_example =
    marshal-prepare (delete_operation (codes "k") no_delete_options) {m = removal}
      {wire = codes "k"} {binary = false} refl refl

batch-IsAnswered_example :
    (rs : List OperationResult) × ((batch (failing 0) client submitted start).0 ≡ ok rs)
    × (length rs ≡ 1)
    × IsAnswered 0 rs
unfolding new_client
batch-IsAnswered_example =
    batch-IsAnswered (failing 0) (codes "a") [] client submitted start 0 refl plan_batch-submitted
      (omega arith)
