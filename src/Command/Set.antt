-- ===== src/Command/Set.antt =====
-- `modeFlag`, `buildSet` and `storeStatus` of client.go.
use go_memcache.Base.{
  Bool, true, false, not, ◌&&◌, List, [], ◌∷◌, ◌++◌, Option, none, some, Bytes, codes, is_some,
  if◌then◌else◌,
}
use go_memcache.Base.Int.{is_nonzero}
use go_memcache.Errors.{
  Err, plain, protocol, Result, ok, err, ◌>>=◌, ◌>>◌, refuse_if, invalid_mode, ttl_ignored,
  vivify_only_concat, add_compares_cas, invalidate_needs_cas, vivify_not_positive,
  unexpected_mutation,
}
use go_memcache.Types.{
  ResponseCode, MutationStatus, StoreMode, mode_set, mode_add, mode_replace, mode_append,
  mode_prepend, other, MetaSetOptions,
}
use go_memcache.Wire.{MetaCommand}
use go_memcache.Command.Flags.{when, given, uint_flag, expiration_flag, not_positive, append_opaque}

-- The mode's flag, none for a plain set.
unfoldable pub mode_flag : StoreMode → Result (List Bytes)
mode_flag mode_set = ok []
mode_flag mode_add = ok (codes "ME" ∷ [])
mode_flag mode_replace = ok (codes "MR" ∷ [])
mode_flag mode_append = ok (codes "MA" ∷ [])
mode_flag mode_prepend = ok (codes "MP" ∷ [])
mode_flag (other n) = err (plain invalid_mode)

unfoldable pub is_concat : StoreMode → Bool
is_concat mode_append = true
is_concat mode_prepend = true
is_concat _ = false

unfoldable pub is_add : StoreMode → Bool
is_add mode_add = true
is_add _ = false

unfoldable pub set_flags : MetaSetOptions → List Bytes → List Bytes
set_flags o mode =
    uint_flag b'F' o.client_flags
    ∷ ((if is_nonzero o.ttl then expiration_flag b'T' o.ttl ∷ [] else [])
        ++ (mode
            ++ (given (uint_flag b'C') o.compare_cas
                ++ (given (uint_flag b'E') o.set_cas
                    ++ (when o.invalidate (codes "I")
                        ++ (given (expiration_flag b'N') o.vivify_ttl
                            ++ (when o.return_cas (codes "c")
                                ++ (when o.return_size (codes "s")
                                    ++ when o.return_key (codes "k")))))))))

unfoldable pub build_set : Bytes → Bytes → MetaSetOptions → Result MetaCommand
unfolding mode_flag is_concat is_add
build_set key value o = do
  mode ← mode_flag o.mode
  refuse_if (is_concat o.mode && is_nonzero o.ttl) (plain ttl_ignored)
  refuse_if (not (is_concat o.mode) && is_some o.vivify_ttl) (plain vivify_only_concat)
  refuse_if (is_add o.mode && is_some o.compare_cas) (plain add_compares_cas)
  refuse_if (o.invalidate && not (is_some o.compare_cas)) (plain invalidate_needs_cas)
  refuse_if (not_positive o.vivify_ttl) (plain vivify_not_positive)
  flags ← append_opaque (set_flags o mode) o.opaque
  ok (record { command = codes "ms"; key = key; flags = flags; value = value; has_value = true })

-- The status, and the error that the source returns beside it.
unfoldable pub store_status : ResponseCode → StoreMode → MutationStatus × Option Err
unfolding is_add
store_status ResponseCode.header mode = (MutationStatus.applied, none)
store_status ResponseCode.exists mode = (MutationStatus.cas_mismatch, none)
store_status ResponseCode.not_found mode = (MutationStatus.not_found, none)
store_status ResponseCode.not_stored mode =
    (if is_add mode then MutationStatus.already_exists else MutationStatus.not_found, none)
store_status _ mode = (MutationStatus.unknown, some (protocol unexpected_mutation))
