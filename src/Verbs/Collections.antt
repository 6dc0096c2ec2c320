-- ===== src/Verbs/Collections.antt =====
-- The collection verbs: `GetMany` of get.go, `SetMany` of set.go and `DeleteMany` of delete.go. Each
-- is one batch and a loop over its results, which goes on behind an error.
pub mod Results
pub mod Found
use go_memcache.Base.{Bool, List, [], ◌∷◌, Option, none, some, Bytes, map, same, if◌then◌else◌}
use go_memcache.Errors.{Err, Result, ok, err, wrapped, empty_value, value_for_key, decoding_for_key}
use go_memcache.Types.{Seconds, GetResult, is_hit, no_set_options, no_delete_options}
use go_memcache.Options.{Duration, call_policy, apply_gets, resolve_ttl}
use go_memcache.Codec.{Codec, Payload, Target, encode, decode}
use go_memcache.Command.Get.{is_empty}
use go_memcache.Client.{Client}
use go_memcache.Client.State.{Network, State, Action, ◌>>=◌, lift, clock}
use go_memcache.Client.Execute.{absorb}
use go_memcache.Batch.{
  Submitted, value, get_operation, set_operation, delete_operation, OperationResult,
}
use go_memcache.Batch.Run.{batch}
use go_memcache.Verbs.Get.{policy_read_options, is_stale_win, return_stale_win}

-- `if firstErr == nil { firstErr = err }`.
unfoldable pub keep_first : Option Err → Err → Option Err
keep_first none e = some e
keep_first (some first) e = some first

-- What the loops do with `result.Err`; the variables are `firstErr` and the state.
unfoldable pub settle_error :
    {W : Type 0} → Network W → Client → Option Err → Option Err → State W → Option Err × State W
unfolding keep_first
settle_error net c none first s = (first, s)
settle_error net c (some e) first s =
    let (taken, s') = absorb net c e s in (if taken then first else keep_first first e, s')

-- The loop of `SetMany` and `DeleteMany`.
unfoldable pub settle_errors :
    {W : Type 0}
    → Network W
    → Client
    → List OperationResult
    → Option Err
    → State W
    → Option Err × State W
unfolding settle_error
settle_errors net c [] first s = (first, s)
settle_errors net c (x ∷ xs) first s =
    let (first', s') = settle_error net c x.error first s in settle_errors net c xs first' s'

-- `return firstErr`.
unfoldable pub return_first : {W : Type 0} → Option Err × State W → Result (Unit {0}) × State W
return_first (none, s) = (ok tt, s)
return_first (some e, s) = (err e, s)

-- `DeleteMany`.
unfoldable pub delete_many : {W : Type 0} → Network W → Client → List Bytes → Action W (Unit {0})
unfolding settle_errors return_first
delete_many net c keys = do
  results ← batch net c (map (λ key. value (delete_operation key no_delete_options)) keys)
  λ s. return_first (settle_errors net c results none s)

-- The operation of one key of `SetMany`, from the encoding of its value.
unfoldable pub set_entry : Bytes → Seconds → Result Bytes → Result Submitted
set_entry key ttl (err e) = err (wrapped value_for_key e)
set_entry key ttl (ok bytes) =
    if is_empty bytes
    then err (wrapped value_for_key empty_value)
    else ok (value (set_operation key bytes (record no_set_options { ttl = ttl })))

abbrev pub cons_ok : {A : Type 0} → Result A → Result (List A) → Result (List A)
cons_ok (err e) rest = err e
cons_ok (ok a) (err e) = err e
cons_ok (ok a) (ok rest) = ok (a ∷ rest)

-- The first loop of `SetMany`, over the mapping in the order of its iteration.
unfoldable pub set_operations :
    {V : Type 0} → Codec V → Seconds → List (Bytes × Payload V) → Result (List Submitted)
unfolding set_entry
set_operations codec ttl [] = ok []
set_operations codec ttl ((key, v) ∷ entries) =
    cons_ok (set_entry key ttl (encode codec v)) (set_operations codec ttl entries)

-- `SetMany`.
unfoldable pub set_many :
    {W V : Type 0}
    → Network W
    → Client
    → Codec V
    → List (Bytes × Payload V)
    → Duration
    → Action W (Unit {0})
unfolding set_operations settle_errors return_first
set_many net c codec mapping ttl = do
  now ← clock net
  expiration ← lift (resolve_ttl now ttl)
  operations ← lift (set_operations codec expiration mapping)
  results ← batch net c operations
  λ s. return_first (settle_errors net c results none s)

-- `m[key]` of a Go map, with `none` for an absent key, and `m[key] = v`.
unfoldable pub lookup : {A : Type 0} → Bytes → List (Bytes × A) → Option A
lookup key [] = none
lookup key ((k, a) ∷ m) = let later = lookup key m in if same k key then some a else later

unfoldable pub store : {A : Type 0} → Bytes → A → List (Bytes × A) → List (Bytes × A)
store key a [] = (key, a) ∷ []
store key a ((k, b) ∷ m) =
    let later = store key a m in if same k key then (k, a) ∷ m else (k, b) ∷ later

-- The variables of the loop of `GetMany`: `found` and `firstErr`.
pub record Collected (V : Type 0) : Type 0 where
  pub found : List (Bytes × Payload V)
  pub first_err : Option Err

unfoldable pub collect_decoded :
    {V : Type 0} → Bytes → Result (Payload V) → Collected V → Collected V
unfolding store keep_first
collect_decoded key (ok v) f = record f { found = store key v f.found }
collect_decoded key (err e) f = record f {
  first_err = keep_first f.first_err (wrapped decoding_for_key e);
}

-- A hit: its stale win goes back, and its value is decoded unless it is empty.
unfoldable pub collect_hit :
    {W V : Type 0}
    → Network W
    → Codec V
    → Target
    → Bytes
    → GetResult
    → Collected V
    → State W
    → Collected V × State W
unfolding collect_decoded is_stale_win
collect_hit net codec target key r f s = (
  if is_empty r.value then f else collect_decoded key (decode codec target r.value) f,
  if is_stale_win r then (return_stale_win net key r s).1 else s,
)

unfoldable pub collect_get :
    {W V : Type 0}
    → Network W
    → Codec V
    → Target
    → Bytes
    → Option GetResult
    → Collected V
    → State W
    → Collected V × State W
unfolding collect_hit
collect_get net codec target key none f s = (f, s)
collect_get net codec target key (some r) f s =
    if is_hit r.status then collect_hit net codec target key r f s else (f, s)

-- The tests of `result.Err` and `result.Get`.
unfoldable pub collect_outcome :
    {W V : Type 0}
    → Network W
    → Client
    → Codec V
    → Target
    → Bytes
    → Option Err
    → Option GetResult
    → Collected V
    → State W
    → Collected V × State W
unfolding settle_error collect_get
collect_outcome net c codec target key none r f s = collect_get net codec target key r f s
collect_outcome net c codec target key (some e) r f s =
    let (first, s') = settle_error net c (some e) f.first_err s in
    (record f { first_err = first }, s')

-- One round of the loop of `GetMany`.
unfoldable pub collect_result :
    {W V : Type 0}
    → Network W
    → Client
    → Codec V
    → Target
    → Bytes
    → OperationResult
    → Collected V
    → State W
    → Collected V × State W
unfolding collect_outcome
collect_result net c codec target key x f s =
    collect_outcome net c codec target key x.error x.get f s

-- The loop, over the keys and the results beside them.
unfoldable pub collect_results :
    {W V : Type 0}
    → Network W
    → Client
    → Codec V
    → Target
    → List Bytes
    → List OperationResult
    → Collected V
    → State W
    → Collected V × State W
unfolding collect_result
collect_results net c codec target (key ∷ keys) (x ∷ xs) f s =
    let (f', s') = collect_result net c codec target key x f s in
    collect_results net c codec target keys xs f' s'
collect_results net c codec target _ _ f s = (f, s)

-- `GetMany`. Where it returns a mapping, an error may stand beside it.
unfoldable pub get_many :
    {W V : Type 0}
    → Network W
    → Client
    → Codec V
    → Target
    → List Bytes
    → List (Option Duration)
    → Action W (Collected V)
unfolding policy_read_options collect_results
get_many net c codec target keys options = do
  policy ← lift (apply_gets options (call_policy c.config))
  now ← clock net
  read ← lift (policy_read_options now policy.touch)
  results ← batch net c (map (λ key. value (get_operation key read)) keys)
  λ s.
      let (f, s') =
        collect_results net c codec target keys results (record { found = []; first_err = none })
          s in
      (ok f, s')
