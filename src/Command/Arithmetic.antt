-- ===== src/Command/Arithmetic.antt =====
-- `buildArithmetic`, `arithmeticStatus` and `semanticArithmetic` of client.go.
use go_memcache.Base.{
  ℕ, true, false, not, List, [], ◌∷◌, ◌++◌, Option, none, some, Bytes, codes, is_some,
  if◌then◌else◌,
}
use mathlib.Core.Bool.{xor}
use go_memcache.Errors.{
  Err, plain, protocol, Result, ok, ◌>>=◌, ◌>>◌, refuse_if, initial_with_ttl,
  initial_ttl_not_positive, unexpected_arithmetic, arithmetic_returned_value,
  arithmetic_returned_header, arithmetic_not_uint64,
}
use go_memcache.Std.Decimal.{parse_uint}
use go_memcache.Types.{
  ResponseCode, MutationStatus, ArithmeticResult, MetaArithmeticOptions, RawResponse, no_metadata,
}
use go_memcache.Wire.{MetaCommand}
use go_memcache.Command.Flags.{when, given, uint_flag, expiration_flag, not_positive, append_opaque}

unfoldable pub arithmetic_flags : MetaArithmeticOptions → List Bytes
arithmetic_flags o =
    uint_flag b'D' o.delta
    ∷ (when o.decrement (codes "MD")
        ++ (given (uint_flag b'J') o.initial
            ++ (given (expiration_flag b'N') o.initial_ttl
                ++ (given (expiration_flag b'T') o.touch
                    ++ (given (uint_flag b'C') o.compare_cas
                        ++ (given (uint_flag b'E') o.set_cas
                            ++ (when (not o.metadata_only) (codes "v")
                                ++ (when o.return_ttl (codes "t")
                                    ++ (when o.return_cas (codes "c")
                                        ++ when o.return_key (codes "k"))))))))))

-- Where the flags are built, `initial` and `initial_ttl` are both given or both absent.
unfoldable pub build_arithmetic : Bytes → MetaArithmeticOptions → Result MetaCommand
build_arithmetic key o = do
  refuse_if (xor (not (is_some o.initial)) (not (is_some o.initial_ttl))) (plain initial_with_ttl)
  refuse_if (not_positive o.initial_ttl) (plain initial_ttl_not_positive)
  flags ← append_opaque (arithmetic_flags o) o.opaque
  ok (record { command = codes "ma"; key = key; flags = flags; value = []; has_value = false })

unfoldable pub arithmetic_status : ResponseCode → MutationStatus × Option Err
arithmetic_status ResponseCode.header = (MutationStatus.applied, none)
arithmetic_status ResponseCode.value = (MutationStatus.applied, none)
arithmetic_status ResponseCode.exists = (MutationStatus.cas_mismatch, none)
arithmetic_status ResponseCode.not_found = (MutationStatus.not_found, none)
arithmetic_status ResponseCode.not_stored = (MutationStatus.not_found, none)
arithmetic_status _ = (MutationStatus.unknown, some (protocol unexpected_arithmetic))

-- `ArithmeticResult{}`.
abbrev pub zero_arithmetic : ArithmeticResult
zero_arithmetic = record {
  key = [];
  status = MutationStatus.unknown;
  value = 0;
  has_value = false;
  metadata = no_metadata;
  returned_key = none;
  opaque = [];
}

abbrev pub start_arithmetic : Bytes → RawResponse → MutationStatus → ArithmeticResult
start_arithmetic key wire status = record {
  key = key;
  status = status;
  value = 0;
  has_value = false;
  metadata = wire.metadata;
  returned_key = wire.key;
  opaque = wire.opaque;
}

unfoldable pub number_result : ArithmeticResult → Option ℕ → ArithmeticResult × Option Err
number_result r none = (zero_arithmetic, some (protocol arithmetic_not_uint64))
number_result r (some n) = (record r { value = n; has_value = true }, none)

unfoldable pub arithmetic_by_code :
    ResponseCode → Bytes → MetaArithmeticOptions → RawResponse → ArithmeticResult × Option Err
unfolding arithmetic_status number_result
arithmetic_by_code ResponseCode.header key o wire =
    if not o.metadata_only
    then (zero_arithmetic, some (protocol arithmetic_returned_header))
    else (start_arithmetic key wire MutationStatus.applied, none)
arithmetic_by_code ResponseCode.value key o wire =
    if o.metadata_only
    then (zero_arithmetic, some (protocol arithmetic_returned_value))
    else number_result (start_arithmetic key wire MutationStatus.applied) (parse_uint 64 wire.value)
arithmetic_by_code code key o wire =
    let (status, e) = arithmetic_status code in (start_arithmetic key wire status, e)

-- The result, and the error that the source returns beside it.
unfoldable pub semantic_arithmetic :
    Bytes → MetaArithmeticOptions → RawResponse → ArithmeticResult × Option Err
unfolding arithmetic_by_code
semantic_arithmetic key o wire = arithmetic_by_code wire.code key o wire
