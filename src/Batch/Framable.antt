-- ===== src/Batch/Framable.antt =====
-- The operations of batch.go and the framing of their commands.
use go_memcache.Base.{◌≡◌, ap, ◌∙◌, Bool, Bytes}
use go_memcache.Errors.{ok}
use go_memcache.Wire.{MetaCommand, encode_key, marshal}
use go_memcache.Wire.Accepts.{marshal-IsBuilt}
use go_memcache.Command.Accepted.{
  IsBuiltFor, build_get-IsBuiltFor, build_set-IsBuiltFor, build_delete-IsBuiltFor,
  build_arithmetic-IsBuiltFor,
}
use go_memcache.Batch.{
  Operation, get_operation, set_operation, delete_operation, arithmetic_operation, operation_key,
  prepare,
}

prepare-IsBuiltFor :
    (op : Operation) {m : MetaCommand} → prepare op ≡ ok m → IsBuiltFor (operation_key op) m
unfolding prepare operation_key
prepare-IsBuiltFor (get_operation key o) h = build_get-IsBuiltFor key o h
prepare-IsBuiltFor (set_operation key v o) h = build_set-IsBuiltFor key v o h
prepare-IsBuiltFor (delete_operation key o) h = build_delete-IsBuiltFor key o h
prepare-IsBuiltFor (arithmetic_operation key o) h = build_arithmetic-IsBuiltFor key o h

-- A get, set, delete or arithmetic operation that its builder accepts, with any options and any
-- opaque token, gives a command that can be framed whenever the operation's key can be encoded.
pub marshal-prepare :
    (op : Operation) {m : MetaCommand} {wire : Bytes} {binary : Bool}
    → prepare op ≡ ok m
    → encode_key (operation_key op) ≡ ok (wire, binary)
    → (out : Bytes) × (marshal m ≡ ok out)
marshal-prepare op {m} h k =
    let b = prepare-IsBuiltFor op h in marshal-IsBuilt m b.built (ap encode_key b.same_key ∙ k)
