-- ===== src/Batch/Prepare.antt =====
-- `batch` of batch.go up to the exchanges: validation, routing, grouping and framing.
pub mod Slices
pub mod Cover
use go_memcache.Base.{
  ℕ, zero, suc, ◌+◌, ◌&&◌, List, [], ◌∷◌, ◌++◌, none, some, Bytes, codes, any, ltb, length,
  replicate,
}
use go_memcache.Errors.{
  plain, wrapped, Result, ok, err, ◌>>=◌, ◌>>◌, refuse_if, batch_operation, batch_nil,
  batch_unsupported, batch_too_large, batch_opaque,
}
use go_memcache.Wire.{marshal}
use go_memcache.Client.{Client, server}
use go_memcache.Batch.{
  Operation, Submitted, nil_interface, unsupported, value, pointer, operation_key, prepare,
  Prepared, is_opaque_flag, quiet_command,
}

-- An error with the operation's number in front.
unfoldable pub at_operation {ℓ} : {A : Type ℓ} → Result A → Result A
at_operation (ok a) = ok a
at_operation (err e) = err (wrapped batch_operation e)

-- The nil test and `normalizeOperation`.
unfoldable pub normalize : Submitted → Result Operation
normalize nil_interface = err (plain batch_nil)
normalize unsupported = err (wrapped batch_operation (plain batch_unsupported))
normalize (value op) = ok op
normalize (pointer none) = err (wrapped batch_operation (plain batch_nil))
normalize (pointer (some op)) = ok op

-- One round of the validation loop: the prepared operation and its server.
unfoldable pub prepare_one : Client → ℕ → Submitted → Result (Prepared × ℕ)
unfolding at_operation normalize
prepare_one c index submitted = do
  op ← normalize submitted
  command ← at_operation (prepare op)
  refuse_if
      (command.has_value
        && ltb 0 c.config.max_item_size
        && ltb c.config.max_item_size (length command.value))
      (plain batch_too_large)
  refuse_if (any is_opaque_flag command.flags) (plain batch_opaque)
  pool ← server c (operation_key op)
  ok (record { index = index; operation = op; command = command; from = 0; to = 0 }, pool)

-- `group.items = append(group.items, …)` for the group of a server; an empty group is a nil one.
unfoldable pub add_item : ℕ → Prepared → List (List Prepared) → List (List Prepared)
add_item pool p [] = []
add_item zero p (group ∷ groups) = (group ++ p ∷ []) ∷ groups
add_item (suc pool) p (group ∷ groups) = group ∷ add_item pool p groups

-- The loop over the operations from number `index`.
unfoldable pub group_from :
    Client → ℕ → List Submitted → List (List Prepared) → Result (List (List Prepared))
unfolding prepare_one add_item
group_from c index [] groups = ok groups
group_from c index (s ∷ rest) groups = do
  (p, pool) ← prepare_one c index s
  group_from c (index + 1) rest (add_item pool p groups)

-- The framing loop of a group, behind `start` bytes: the items with their places, and the bytes.
unfoldable pub frame_items : ℕ → List Prepared → Result (List Prepared × Bytes)
frame_items start [] = ok ([], [])
frame_items start (p ∷ rest) = do
  wire ← at_operation (marshal (quiet_command p))
  let stop = start + length wire
  (items, payload) ← frame_items stop rest
  ok (record p { from = start; to = stop } ∷ items, wire ++ payload)

pub record Group : Type 0 where
  pub pool : ℕ
  pub items : List Prepared
  pub payload : Bytes

-- The barrier behind the operations.
abbrev pub barrier_command : Bytes
barrier_command = codes "mn\r\n"

-- The loop over the servers from number `pool`; a server with no operation is skipped.
unfoldable pub order_groups : ℕ → List (List Prepared) → Result (List Group)
unfolding frame_items
order_groups pool [] = ok []
order_groups pool ([] ∷ groups) = order_groups (pool + 1) groups
order_groups pool ((p ∷ ps) ∷ groups) = do
  (items, payload) ← frame_items 0 (p ∷ ps)
  later ← order_groups (pool + 1) groups
  ok (record { pool = pool; items = items; payload = payload ++ barrier_command } ∷ later)

-- The groups of a batch, in the order of the servers.
unfoldable pub plan_batch : Client → List Submitted → Result (List Group)
unfolding group_from order_groups
plan_batch c submitted = do
  groups ← group_from c 0 submitted (replicate (length c.addresses) [])
  order_groups 0 groups
