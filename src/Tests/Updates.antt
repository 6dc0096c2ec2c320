-- ===== src/Tests/Updates.antt =====
-- The retry loops of update.go at concrete inputs.
use go_memcache.Base.{◌≡◌, refl, [], ◌∷◌, some, codes, Bytes, ◌==◌, if◌then◌else◌, Bool, false}
use go_memcache.Base.Int.{pos}
use go_memcache.Errors.{ok}
use go_memcache.Types.{ResponseCode, RawResponse, GetStatus, GetResult, empty_response, no_metadata}
use go_memcache.Wire.{MetaCommand}
use go_memcache.Command.Get.{zero_get}
use go_memcache.Command.Set.{build_set}
use go_memcache.Client.State.{answered, Network}
use go_memcache.Verbs.Update.{update, take, write_options, compare_of}
use go_memcache.Verbs.Update.Attempts.{Attempt}
use go_memcache.Verbs.Update.Takes.{TakeAttempt}
use go_memcache.Verbs.Update.Retries.{Ends, update-Ends, take-Ends}
use go_memcache.Verbs.Update.Conditional.{IsWrite, write_options-conditional}
use go_memcache.Tests.Fixtures.{client, answering, start}

-- A hit with the CAS 9.
abbrev version : GetResult
version = record zero_get { status = GetStatus.hit; metadata = record no_metadata { cas = some 9 } }

write_options-conditional_example :
    (m : MetaCommand) × (build_set
        (codes "k")
        (codes "v")
        (write_options (pos 60) (compare_of version))
      ≡ ok m)
    × IsWrite (codes "k") (codes "v") (pos 60) version m
write_options-conditional_example =
    write_options-conditional (codes "k") (codes "v") (pos 60) version

abbrev stored_value : RawResponse
stored_value = record (empty_response ResponseCode.value) {
  value = codes "old";
  metadata = record no_metadata { cas = some 9 };
}

-- Whether a command is an `mg`.
abbrev is_read : Bytes → Bool
is_read (m ∷ g ∷ rest) = g == b'g'
is_read _ = false

-- The server has the value, and applies every write and delete.
abbrev serving : Network (Unit {0})
serving = record (answering stored_value) {
  exchange = λ pool ctx payload stop w. (
    answered (if is_read payload then stored_value else empty_response ResponseCode.header) [] 0,
    w,
  );
}

-- The update stores on its first attempt.
update-run :
    update serving client (codes "k") (pos 60000000000) (λ current. ok (codes "new", current)) start
    ≡ (ok (codes "new", some (codes "old")), start)
unfolding go_memcache.Command.Get.get_flags go_memcache.Command.Get.build_get
    go_memcache.Command.Get.semantic_get go_memcache.Command.Set.set_flags
    go_memcache.Command.Set.build_set go_memcache.Command.Set.store_status
    go_memcache.Command.Flags.uint_flag go_memcache.Command.Flags.expiration_flag
    go_memcache.Command.Flags.not_positive go_memcache.Command.Flags.opaque_flags
    go_memcache.Command.Flags.append_opaque go_memcache.Wire.encode_key
    go_memcache.Wire.validate_opaque go_memcache.Wire.is_supported go_memcache.Wire.key_flags
    go_memcache.Wire.write_flags go_memcache.Wire.check_command go_memcache.Wire.frame_line
    go_memcache.Wire.marshal_key go_memcache.Wire.marshal go_memcache.Client.server
    go_memcache.Client.Execute.execute_meta go_memcache.Types.Expiration.expires_in
    go_memcache.Options.default_config go_memcache.Options.resolve_ttl
    go_memcache.Wire.Char.is_control go_memcache.Std.Decimal.format_int
    go_memcache.Options.Router.rendezvous_pick go_memcache.Client.Prepare.prepare_meta
    go_memcache.Verbs.Update.current_value go_memcache.Verbs.Update.typed_update
    go_memcache.Verbs.Set.set
update-run = refl

update-Ends_example :
    Ends
      (λ s r.
        Attempt serving client (codes "k") (pos 60) (λ current. ok (codes "new", current)) s r)
      8
      start
      (update serving client
        (codes "k")
        (pos 60000000000)
        (λ current. ok (codes "new", current))
        start)
unfolding go_memcache.Options.resolve_ttl go_memcache.Types.Expiration.expires_in
update-Ends_example =
    update-Ends serving client (codes "k") (pos 60000000000) (λ current. ok (codes "new", current))
      start refl

-- The take deletes on its first attempt.
take-run : take serving client (codes "k") start ≡ (ok (some (codes "old")), start)
unfolding go_memcache.Command.Get.get_flags go_memcache.Command.Get.build_get
    go_memcache.Command.Get.semantic_get go_memcache.Command.Flags.uint_flag
    go_memcache.Command.Flags.not_positive go_memcache.Command.Flags.opaque_flags
    go_memcache.Command.Flags.append_opaque go_memcache.Wire.encode_key
    go_memcache.Wire.validate_opaque go_memcache.Wire.is_supported go_memcache.Wire.key_flags
    go_memcache.Wire.write_flags go_memcache.Wire.check_command go_memcache.Wire.frame_line
    go_memcache.Wire.marshal_key go_memcache.Wire.marshal go_memcache.Client.server
    go_memcache.Client.Execute.execute_meta go_memcache.Types.is_hit
    go_memcache.Options.default_config go_memcache.Wire.Char.is_control
    go_memcache.Std.Decimal.format_int go_memcache.Options.Router.rendezvous_pick
    go_memcache.Client.Prepare.prepare_meta go_memcache.Verbs.Update.take
    go_memcache.Verbs.Set.concat go_memcache.Command.Delete.delete_flags
    go_memcache.Command.Delete.build_delete go_memcache.Command.Delete.delete_status
take-run = refl

take-Ends_example :
    Ends
      (λ s r. TakeAttempt serving client (codes "k") s r)
      8
      start
      (take serving client (codes "k") start)
take-Ends_example = take-Ends serving client (codes "k") start
