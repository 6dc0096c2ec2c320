-- ===== src/Command/Get.antt =====
-- `buildGet` and `semanticGet` of client.go.
pub mod Effects
use go_memcache.Base.{
  Bool, true, false, not, ◌&&◌, ◌||◌, List, [], ◌∷◌, ◌++◌, none, Bytes, codes, is_some,
  if◌then◌else◌,
}
use go_memcache.Errors.{
  plain, protocol, Result, ok, err, ◌>>=◌, ◌>>◌, refuse_if, unless_cas_needs_value,
  metadata_refresh, vivify_not_positive, refresh_not_positive, get_returned_header, unexpected_get,
}
use go_memcache.Types.{
  ResponseCode, GetStatus, ValueState, LeaseState, GetResult, MetaGetOptions, RawResponse,
  no_metadata,
}
use go_memcache.Wire.{MetaCommand}
use go_memcache.Command.Flags.{when, given, uint_flag, expiration_flag, not_positive, append_opaque}

-- The flags in the order of the source, the opaque token excepted.
unfoldable pub get_flags : MetaGetOptions → List Bytes
get_flags o =
    when (not o.metadata_only) (codes "v")
    ++ (when
          (o.return_cas || is_some o.vivify_ttl || is_some o.refresh_before || is_some o.unless_cas)
          (codes "c")
        ++ (when o.return_client_flags (codes "f")
            ++ (when o.return_ttl (codes "t")
                ++ (when o.return_size (codes "s")
                    ++ (when o.return_last_access (codes "l")
                        ++ (when o.return_hit_before (codes "h")
                            ++ (when o.return_key (codes "k")
                                ++ (when o.no_lru_bump (codes "u")
                                    ++ (given (expiration_flag b'T') o.touch
                                        ++ (given (expiration_flag b'N') o.vivify_ttl
                                            ++ (given (expiration_flag b'R') o.refresh_before
                                                ++ (given (uint_flag b'C') o.unless_cas
                                                    ++ given (uint_flag b'E') o.set_cas))))))))))))

-- Where both durations are refused, the source's map order chooses the message; here the first.
unfoldable pub build_get : Bytes → MetaGetOptions → Result MetaCommand
build_get key o = do
  refuse_if (is_some o.unless_cas && o.metadata_only) (plain unless_cas_needs_value)
  refuse_if (o.metadata_only && is_some o.vivify_ttl && is_some o.refresh_before)
      (plain metadata_refresh)
  refuse_if (not_positive o.vivify_ttl) (plain vivify_not_positive)
  refuse_if (not_positive o.refresh_before) (plain refresh_not_positive)
  flags ← append_opaque (get_flags o) o.opaque
  ok (record { command = codes "mg"; key = key; flags = flags; value = []; has_value = false })

-- `GetResult{}`.
abbrev pub zero_get : GetResult
zero_get = record {
  key = [];
  status = GetStatus.unknown;
  value = [];
  metadata = no_metadata;
  value_state = ValueState.unknown;
  lease = LeaseState.no_lease;
  returned_key = none;
  opaque = [];
}

abbrev pub start_get : Bytes → RawResponse → GetResult
start_get key wire = record {
  key = key;
  status = GetStatus.unknown;
  value = [];
  metadata = wire.metadata;
  value_state = ValueState.fresh;
  lease = LeaseState.no_lease;
  returned_key = wire.key;
  opaque = wire.opaque;
}

unfoldable pub is_empty : Bytes → Bool
is_empty [] = true
is_empty (c ∷ s) = false

-- A lease placeholder, as far as the protocol can tell it from a stored empty value.
unfoldable pub is_placeholder : MetaGetOptions → RawResponse → Bool → Bool
unfolding is_empty
is_placeholder o wire va =
    is_some o.vivify_ttl
    && (wire.won || wire.busy)
    && not wire.stale
    && (not (is_some o.refresh_before) || (va && is_empty wire.value))

-- The `case ResponseValue, ResponseHeader`; `va` tells which.
unfoldable pub hit_result : Bytes → MetaGetOptions → RawResponse → Bool → GetResult
unfolding is_placeholder
hit_result key o wire va =
    let status = if not va && is_some o.unless_cas then GetStatus.unchanged else GetStatus.hit in
    let state = if wire.stale then ValueState.stale else ValueState.fresh in
    let lease =
      if wire.busy
      then LeaseState.busy
      else if wire.won
      then LeaseState.granted
      else LeaseState.no_lease in
    let placeholder = is_placeholder o wire va in
    record (start_get key wire) {
      value = if va then wire.value else [];
      lease = lease;
      status =
          if placeholder then (if wire.won then GetStatus.miss else GetStatus.pending) else status;
      value_state = if placeholder then ValueState.missing else state;
    }

unfoldable pub get_by_code : ResponseCode → Bytes → MetaGetOptions → RawResponse → Result GetResult
unfolding hit_result
get_by_code ResponseCode.miss key o wire =
    ok (record (start_get key wire) { status = GetStatus.miss; value_state = ValueState.missing })
get_by_code ResponseCode.value key o wire = ok (hit_result key o wire true)
get_by_code ResponseCode.header key o wire =
    if not o.metadata_only && not (is_some o.unless_cas)
    then err (protocol get_returned_header)
    else ok (hit_result key o wire false)
get_by_code _ key o wire = err (protocol unexpected_get)

unfoldable pub semantic_get : Bytes → MetaGetOptions → RawResponse → Result GetResult
unfolding get_by_code
semantic_get key o wire = get_by_code wire.code key o wire
