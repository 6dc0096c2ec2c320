-- ===== src/Command/Delete.antt =====
-- `buildDelete` and `deleteStatus` of client.go.
use go_memcache.Base.{not, ◌&&◌, false, List, [], ◌++◌, Option, none, some, Bytes, codes, is_some}
use go_memcache.Errors.{
  Err, plain, protocol, Result, ok, ◌>>=◌, ◌>>◌, refuse_if, stale_for_needs_invalidate,
  unexpected_delete,
}
use go_memcache.Types.{ResponseCode, MutationStatus, MetaDeleteOptions}
use go_memcache.Wire.{MetaCommand}
use go_memcache.Command.Flags.{when, given, uint_flag, expiration_flag, append_opaque}

unfoldable pub delete_flags : MetaDeleteOptions → List Bytes
delete_flags o =
    given (uint_flag b'C') o.compare_cas
    ++ (given (uint_flag b'E') o.set_cas
        ++ (when o.invalidate (codes "I")
            ++ (given (expiration_flag b'T') o.stale_for
                ++ (when o.drop_value (codes "x") ++ when o.return_key (codes "k")))))

unfoldable pub build_delete : Bytes → MetaDeleteOptions → Result MetaCommand
build_delete key o = do
  refuse_if (is_some o.stale_for && not o.invalidate) (plain stale_for_needs_invalidate)
  flags ← append_opaque (delete_flags o) o.opaque
  ok (record { command = codes "md"; key = key; flags = flags; value = []; has_value = false })

unfoldable pub delete_status : ResponseCode → MutationStatus × Option Err
delete_status ResponseCode.header = (MutationStatus.applied, none)
delete_status ResponseCode.exists = (MutationStatus.cas_mismatch, none)
delete_status ResponseCode.not_found = (MutationStatus.not_found, none)
delete_status _ = (MutationStatus.unknown, some (protocol unexpected_delete))
