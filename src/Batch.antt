-- ===== src/Batch.antt =====
-- batch.go: the operations of a batch, and what is sent for each.
pub mod Framable
pub mod Opaque
pub mod Prepare
pub mod Resolve
pub mod Run
use go_memcache.Base.{
  ℕ, Bool, true, false, not, ◌||◌, List, [], ◌∷◌, ◌++◌, Option, none, some, Bytes, codes, is_some,
  ◌==◌, if◌then◌else◌,
}
use go_memcache.Errors.{Err, Result}
use go_memcache.Std.Decimal.{format_uint}
use go_memcache.Types.{
  GetResult, MutationResult, ArithmeticResult, MetaGetOptions, MetaSetOptions, MetaDeleteOptions,
  MetaArithmeticOptions,
}
use go_memcache.Wire.{MetaCommand}
use go_memcache.Command.Get.{build_get}
use go_memcache.Command.Set.{build_set}
use go_memcache.Command.Delete.{build_delete}
use go_memcache.Command.Arithmetic.{build_arithmetic}

-- The operation structs. The constructor is the `operationKind`.
pub data Operation : Type 0 where
  get_operation : Bytes → MetaGetOptions → Operation
  set_operation : Bytes → Bytes → MetaSetOptions → Operation
  delete_operation : Bytes → MetaDeleteOptions → Operation
  arithmetic_operation : Bytes → MetaArithmeticOptions → Operation

-- A value of the interface: nil, a struct, a pointer that may be nil, or another implementation.
pub data Submitted : Type 0 where
  nil_interface unsupported : Submitted
  value : Operation → Submitted
  pointer : Option Operation → Submitted

unfoldable pub operation_key : Operation → Bytes
operation_key (get_operation key o) = key
operation_key (set_operation key v o) = key
operation_key (delete_operation key o) = key
operation_key (arithmetic_operation key o) = key

-- The four `prepare` methods.
unfoldable pub prepare : Operation → Result MetaCommand
prepare (get_operation key o) = build_get key o
prepare (set_operation key v o) = build_set key v o
prepare (delete_operation key o) = build_delete key o
prepare (arithmetic_operation key o) = build_arithmetic key o

pub record OperationResult : Type 0 where
  pub get : Option GetResult
  pub mutation : Option MutationResult
  pub arithmetic : Option ArithmeticResult
  pub error : Option Err
  pub ambiguous : Bool

abbrev pub no_result : OperationResult
no_result = record {
  get = none;
  mutation = none;
  arithmetic = none;
  error = none;
  ambiguous = false;
}

-- `preparedOperation`; `from` and `to` are its `start` and `end`.
pub record Prepared : Type 0 where
  pub index : ℕ
  pub operation : Operation
  pub command : MetaCommand
  pub from : ℕ
  pub to : ℕ

unfoldable pub is_get : Operation → Bool
is_get (get_operation key o) = true
is_get _ = false

-- Whether a success sends a response although the command is quiet.
unfoldable pub success_response_required : Operation → Bool
success_response_required (get_operation key o) = is_some o.vivify_ttl
success_response_required (set_operation key v o) = o.return_cas || o.return_key || o.return_size
success_response_required (delete_operation key o) = o.return_key
success_response_required (arithmetic_operation key o) = true

unfoldable pub is_opaque_flag : Bytes → Bool
is_opaque_flag [] = false
is_opaque_flag (c ∷ flag) = c == b'O'

unfoldable pub without_opaque : List Bytes → List Bytes
unfolding is_opaque_flag
without_opaque [] = []
without_opaque (flag ∷ flags) =
    let rest = without_opaque flags in if is_opaque_flag flag then rest else flag ∷ rest

-- `"O" + strconv.Itoa(index)`.
unfoldable pub index_flag : ℕ → Bytes
index_flag i = b'O' ∷ format_uint i

unfoldable pub quiet_flags : Prepared → List Bytes
unfolding is_get
quiet_flags p =
    if is_get p.operation || not (success_response_required p.operation) then codes "q" ∷ [] else []

-- `quietCommand`.
unfoldable pub quiet_command : Prepared → MetaCommand
unfolding without_opaque index_flag quiet_flags
quiet_command p = record p.command {
  flags = without_opaque p.command.flags ++ index_flag p.index ∷ quiet_flags p;
}
