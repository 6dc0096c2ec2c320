-- ===== src/Verbs/Meta.antt =====
-- meta.go, `Batch` excepted.
use go_memcache.Base.{ℕ, suc, Bool, true, false, List, [], ◌∷◌, Bytes, codes, if◌then◌else◌}
use go_memcache.Errors.{Result, ok, err, protocol, cache_miss, unexpected_debug, unexpected_noop}
use go_memcache.Types.{
  ResponseCode, GetResult, MutationStatus, MutationResult, ArithmeticResult, RawResponse,
  MetaGetOptions, MetaSetOptions, MetaDeleteOptions, MetaArithmeticOptions,
}
use go_memcache.Command.Get.{build_get, semantic_get}
use go_memcache.Command.Set.{build_set, store_status}
use go_memcache.Command.Delete.{build_delete, delete_status}
use go_memcache.Command.Arithmetic.{build_arithmetic, semantic_arithmetic}
use go_memcache.Client.{Client}
use go_memcache.Client.State.{
  caller, Network, Exchange, answered, failed, Action, ◌>>=◌, ◌>>◌, done, lift, lift_pair,
}
use go_memcache.Client.Execute.{execute_meta}

-- `MetaClient.Get`.
unfoldable pub meta_get :
    {W : Type 0} → Network W → Client → Bytes → MetaGetOptions → Action W GetResult
meta_get net c key o = do
  command ← lift (build_get key o)
  wire ← execute_meta net c caller command
  lift (semantic_get key o wire)

abbrev pub mutation_result : Bytes → MutationStatus → RawResponse → MutationResult
mutation_result key status wire = record {
  key = key;
  status = status;
  cas = wire.metadata.cas;
  size = wire.metadata.size;
  returned_key = wire.key;
  opaque = wire.opaque;
}

-- `MetaClient.Set`.
unfoldable pub meta_set :
    {W : Type 0} → Network W → Client → Bytes → Bytes → MetaSetOptions → Action W MutationResult
meta_set net c key value o = do
  command ← lift (build_set key value o)
  wire ← execute_meta net c caller command
  status ← lift_pair (store_status wire.code o.mode)
  done (mutation_result key status wire)

-- `MetaClient.Delete`.
unfoldable pub meta_delete :
    {W : Type 0} → Network W → Client → Bytes → MetaDeleteOptions → Action W MutationResult
meta_delete net c key o = do
  command ← lift (build_delete key o)
  wire ← execute_meta net c caller command
  status ← lift_pair (delete_status wire.code)
  done (mutation_result key status wire)

-- `MetaClient.Arithmetic`.
unfoldable pub meta_arithmetic :
    {W : Type 0} → Network W → Client → Bytes → MetaArithmeticOptions → Action W ArithmeticResult
meta_arithmetic net c key o = do
  command ← lift (build_arithmetic key o)
  wire ← execute_meta net c caller command
  lift_pair (semantic_arithmetic key o wire)

-- The codes that `Debug` tells apart.
unfoldable pub debug_result : RawResponse → ResponseCode → Result (List (Bytes × Bytes))
debug_result wire ResponseCode.miss = err cache_miss
debug_result wire ResponseCode.debug = ok wire.debug
debug_result wire _ = err (protocol unexpected_debug)

-- `MetaClient.Debug`.
unfoldable pub debug : {W : Type 0} → Network W → Client → Bytes → Action W (List (Bytes × Bytes))
unfolding debug_result
debug net c key = do
  wire ←
      execute_meta net c caller
        (record { command = codes "me"; key = key; flags = []; value = []; has_value = false })
  lift (debug_result wire wire.code)

unfoldable pub is_noop : ResponseCode → Bool
is_noop ResponseCode.noop = true
is_noop _ = false

-- The test of a backend's answer: one response, and it is the barrier.
unfoldable pub noop_answer : Exchange → Result (Unit {0})
unfolding is_noop
noop_answer (failed responses written e) = err e
noop_answer (answered r [] written) =
    if is_noop r.code then ok tt else err (protocol unexpected_noop)
noop_answer (answered r (q ∷ rest) written) = err (protocol unexpected_noop)

pub exchange_noop : {W : Type 0} → Network W → ℕ → Action W (Unit {0})
unfolding noop_answer
exchange_noop net pool s =
    let (x, w) = net.exchange pool caller (codes "mn\r\n") (λ r. is_noop r.code) s.world in
    (noop_answer x, record s { world = w })

-- The loop of `Noop` over the pools from `i`.
unfoldable pub noop_from : {W : Type 0} → Network W → ℕ → List Bytes → Action W (Unit {0})
unfolding exchange_noop
noop_from net i [] = done tt
noop_from net i (address ∷ rest) = do exchange_noop net i; noop_from net (suc i) rest

-- `MetaClient.Noop`.
unfoldable pub noop : {W : Type 0} → Network W → Client → Action W (Unit {0})
unfolding noop_from
noop net c = noop_from net 0 c.addresses
