-- ===== src/Tests/Verbs.antt =====
-- The verbs at concrete inputs.
use go_memcache.Base.{◌≡◌, false, refl, [], some, codes}
use go_memcache.Base.Int.{pos}
use go_memcache.Errors.{
  Err, Result, plain, ambiguous, ok, err, vivify_not_positive, initial_ttl_not_positive,
}
use go_memcache.Types.{ResponseCode, empty_response, mode_append, no_set_options, no_delete_options}
use go_memcache.Wire.{MetaCommand}
use go_memcache.Codec.{Codec, Payload, raw}
use go_memcache.Command.Set.{build_set}
use go_memcache.Command.Delete.{build_delete}
use go_memcache.Client.State.{caller}
use go_memcache.Client.Execute.{execute_meta}
use go_memcache.Verbs.Set.{do_set, set, concat}
use go_memcache.Verbs.Set.Forever.{concat_forever}
use go_memcache.Verbs.Counter.{counter}
use go_memcache.Verbs.Counter.Forever.{counter_forever}
use go_memcache.Verbs.Ambiguity.{set-ambiguous}
use go_memcache.Tests.Fixtures.{client, degraded, broken, failing, start}

counter_forever_example :
    counter (failing 0) client (codes "n") 3 false (pos 0) start
    ≡ (err (plain initial_ttl_not_positive), start)
counter_forever_example = counter_forever (failing 0) client (codes "n") 3 false start

concat_forever_example :
    ((concat mode_append (failing 0) degraded (codes "k") (codes "v") (pos 0) start).0 ≡ ok tt)
    × ((concat mode_append (failing 0) degraded (codes "k") (codes "v") (pos 0) start).1.world ≡ tt)
    × ((concat mode_append (failing 0) degraded (codes "k") (codes "v") (pos 0) start).1.spawned
        ≡ [])
unfolding go_memcache.Command.Set.is_concat
concat_forever_example =
    concat_forever mode_append (failing 0) degraded (codes "k") b'v' [] start refl

-- The codec of a type with one value.
abbrev unit_codec : Codec (Unit {0})
unit_codec = record { marshal = λ v. ok (codes "{}"); unmarshal = λ bytes. ok tt }

do_set-lost :
    do_set
      (failing 14)
      degraded
      (codes "k")
      (codes "v")
      (record no_set_options { ttl = pos 0 })
      start
    ≡ (err (ambiguous (codes "ms") (codes "k") broken), start)
unfolding do_set build_set go_memcache.Command.Set.set_flags go_memcache.Command.Set.mode_flag
    go_memcache.Command.Set.is_concat go_memcache.Command.Set.is_add
    go_memcache.Command.Flags.append_opaque go_memcache.Command.Flags.opaque_flags
    go_memcache.Command.Flags.not_positive go_memcache.Command.Flags.uint_flag
    go_memcache.Command.Flags.expiration_flag go_memcache.Types.Expiration.expires_in
    go_memcache.Wire.check_command go_memcache.Wire.is_supported go_memcache.Wire.encode_key
    go_memcache.Wire.Char.is_control go_memcache.Wire.marshal_key go_memcache.Wire.write_flags
    go_memcache.Wire.key_flags go_memcache.Wire.frame_line go_memcache.Wire.size_part
    go_memcache.Wire.value_part go_memcache.Wire.validate_opaque go_memcache.Wire.marshal
    go_memcache.Client.server go_memcache.Client.in_range go_memcache.Options.default_config
    go_memcache.Options.Router.rendezvous_pick go_memcache.Client.Prepare.prepare_meta
    go_memcache.Client.Execute.send_prepared go_memcache.Client.Execute.exchange_result
    go_memcache.Client.Execute.exchange_error go_memcache.Command.Flags.command_has_side_effect
    go_memcache.Errors.as_server go_memcache.Errors.as_ambiguous execute_meta
    go_memcache.Std.Decimal.format_uint go_memcache.Std.Decimal.format_int
do_set-lost = refl

set-ambiguous_example :
    set (failing 14) degraded unit_codec (codes "k") (raw (codes "v")) (pos 0) start
    ≡ (err (ambiguous (codes "ms") (codes "k") broken), start)
unfolding go_memcache.Options.resolve_ttl go_memcache.Codec.encode go_memcache.Errors.as_ambiguous
    go_memcache.Types.Expiration.expires_in
set-ambiguous_example =
    set-ambiguous (failing 14) degraded unit_codec (codes "k") (raw (codes "v")) (pos 0) start start
      refl refl do_set-lost refl

do_set-append_lost :
    do_set
      (failing 21)
      degraded
      (codes "k")
      (codes "v")
      (record no_set_options { mode = mode_append; vivify_ttl = some (pos 60) })
      start
    ≡ (err (ambiguous (codes "ms") (codes "k") broken), start)
unfolding do_set build_set go_memcache.Command.Set.set_flags go_memcache.Command.Set.mode_flag
    go_memcache.Command.Set.is_concat go_memcache.Command.Set.is_add
    go_memcache.Command.Flags.append_opaque go_memcache.Command.Flags.opaque_flags
    go_memcache.Command.Flags.not_positive go_memcache.Command.Flags.uint_flag
    go_memcache.Command.Flags.expiration_flag go_memcache.Types.Expiration.expires_in
    go_memcache.Wire.check_command go_memcache.Wire.is_supported go_memcache.Wire.encode_key
    go_memcache.Wire.Char.is_control go_memcache.Wire.marshal_key go_memcache.Wire.write_flags
    go_memcache.Wire.key_flags go_memcache.Wire.frame_line go_memcache.Wire.size_part
    go_memcache.Wire.value_part go_memcache.Wire.validate_opaque go_memcache.Wire.marshal
    go_memcache.Client.server go_memcache.Client.in_range go_memcache.Options.default_config
    go_memcache.Options.Router.rendezvous_pick go_memcache.Client.Prepare.prepare_meta
    go_memcache.Client.Execute.send_prepared go_memcache.Client.Execute.exchange_result
    go_memcache.Client.Execute.exchange_error go_memcache.Command.Flags.command_has_side_effect
    go_memcache.Errors.as_server go_memcache.Errors.as_ambiguous execute_meta
    go_memcache.Std.Decimal.format_uint go_memcache.Std.Decimal.format_int
do_set-append_lost = refl

abbrev removal : MetaCommand
removal = record {
  command = codes "md";
  key = codes "k";
  flags = [];
  value = [];
  has_value = false;
}

build_delete-removal : build_delete (codes "k") no_delete_options ≡ ok removal
unfolding build_delete go_memcache.Command.Delete.delete_flags
    go_memcache.Command.Flags.append_opaque go_memcache.Command.Flags.opaque_flags
    go_memcache.Wire.validate_opaque
build_delete-removal = refl

execute_meta-removal :
    execute_meta (failing 6) degraded caller removal start
    ≡ (err (ambiguous (codes "md") (codes "k") broken), start)
unfolding go_memcache.Wire.check_command go_memcache.Wire.is_supported go_memcache.Wire.encode_key
    go_memcache.Wire.Char.is_control go_memcache.Wire.marshal_key go_memcache.Wire.write_flags
    go_memcache.Wire.key_flags go_memcache.Wire.frame_line go_memcache.Wire.size_part
    go_memcache.Wire.value_part go_memcache.Wire.validate_opaque go_memcache.Wire.marshal
    go_memcache.Client.server go_memcache.Client.in_range go_memcache.Options.default_config
    go_memcache.Options.Router.rendezvous_pick go_memcache.Client.Prepare.prepare_meta
    go_memcache.Client.Execute.send_prepared go_memcache.Client.Execute.exchange_result
    go_memcache.Client.Execute.exchange_error go_memcache.Command.Flags.command_has_side_effect
    go_memcache.Errors.as_server go_memcache.Errors.as_ambiguous execute_meta
    go_memcache.Std.Decimal.format_uint go_memcache.Std.Decimal.format_int
execute_meta-removal = refl
