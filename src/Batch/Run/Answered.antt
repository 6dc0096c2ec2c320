-- ===== src/Batch/Run/Answered.antt =====
-- Every operation of a batch gets a result of its own.
use mathlib.Core.Path.{subst}
use go_memcache.Base.{
  ℕ, zero, suc, ◌<◌, ◌==◌, ◌≡◌, ◌≢◌, refl, ◌∙◌, sym, arith, Bool, true, false, ◌||◌, ◌⊎◌,
  Bool-cases, inl, inr, List, [], ◌∷◌, Option, none, some, Bytes, length, set, get_elem?, is_some,
  replicate, length-set, get_elem?-set-same, get_elem?-set-other, if◌then◌else◌,
}
use go_memcache.Errors.{Err, ok}
use go_memcache.Types.{RawResponse}
use go_memcache.Client.{Client, server}
use go_memcache.Batch.{Operation, Submitted, OperationResult, no_result, Prepared}
use go_memcache.Batch.Prepare.{Group, plan_batch}
use go_memcache.Batch.Prepare.Cover.{has_index, has_item, plan_batch-has}
use go_memcache.Batch.Run.{resolve_outcome, run_groups, batch}
use go_memcache.Batch.Run.AllOrNothing.{length-resolve_outcome, length-replicate}
use go_memcache.Options.{ClientOption}
use go_memcache.Client.{new_client}
use go_memcache.Client.Routing.{server-in_range}
use go_memcache.Client.State.{caller, Exchange, answered, failed, Network, State}
use go_memcache.Verbs.Meta.{is_noop}
use go_memcache.Batch.Resolve.{
  Tally, settle, settle_found, settle_silent, settle_items, resolve_group, unknown_outcome,
  parse_batch_response, typed_response, or_parse_error, infer_quiet_result, find,
}

-- Whether a result says anything: an error, or what an operation has brought.
abbrev pub is_answer : OperationResult → Bool
is_answer x = is_some x.error || (is_some x.get || (is_some x.mutation || is_some x.arithmetic))

pub record IsAnswer (x : OperationResult) : Type 0 where
  pub says : is_answer x ≡ true

-- The result at a place says something.
abbrev pub IsAnswered : ℕ → List OperationResult → Type 0
IsAnswered i output = (x : OperationResult) × (get_elem? output i ≡ some x) × IsAnswer x

infer_quiet_result-IsAnswer : (op : Operation) → IsAnswer (infer_quiet_result op)
unfolding infer_quiet_result
infer_quiet_result-IsAnswer op = record { says = ground arith }

typed_response-IsAnswer : (op : Operation) (r : RawResponse) → IsAnswer (typed_response op r)
unfolding typed_response
typed_response-IsAnswer op r = record { says = ground arith }

parse_batch_response-IsAnswer :
    (op : Operation) (r : RawResponse) → IsAnswer (parse_batch_response op r)
unfolding parse_batch_response or_parse_error
parse_batch_response-IsAnswer op r =
    let typed = typed_response-IsAnswer op (record r { opaque = [] }) in
    record { says = ground (arith, typed.says) }

unknown_outcome-IsAnswer :
    (p : Prepared) (written : ℕ) (e : Err) → IsAnswer (unknown_outcome p written e)
unfolding unknown_outcome
unknown_outcome-IsAnswer p written e = record { says = refl }

IsAnswer-if :
    (b : Bool) (x y : OperationResult) → IsAnswer x → IsAnswer y → IsAnswer (if b then x else y)
IsAnswer-if true x y h k = h
IsAnswer-if false x y h k = k

settle_found-IsAnswer :
    (e : Option Err) (written : ℕ) (t : Tally) (p : Prepared) (found : Option RawResponse)
    → IsAnswer (settle_found e written t p found)
unfolding settle_found settle_silent
settle_found-IsAnswer e written t p (some r) = parse_batch_response-IsAnswer p.operation r
settle_found-IsAnswer e written t p none =
    IsAnswer-if _ _ _
      (IsAnswer-if _ _ _ (infer_quiet_result-IsAnswer p.operation)
        (unknown_outcome-IsAnswer p written _))
      (unknown_outcome-IsAnswer p written _)

settle-IsAnswer :
    (e : Option Err) (written : ℕ) (t : Tally) (p : Prepared) → IsAnswer (settle e written t p)
unfolding settle
settle-IsAnswer e written t p =
    IsAnswer-if _ _ _ (unknown_outcome-IsAnswer p written _)
      (settle_found-IsAnswer e written t p (find p.index t.by_index))

set-IsAnswered :
    (output : List OperationResult) (i j : ℕ) (x : OperationResult)
    → IsAnswer x
    → i < length output
    → (j ≡ i) ⊎ IsAnswered i output
    → IsAnswered i (set output j x)
set-IsAnswered output i j x h k w = elim (Bool-cases (j == i)) [
  | inl e ↦
      let same_place : j ≡ i = ground arith in
      (
        x,
        subst (λ n. get_elem? (set output n x) i ≡ some x) (sym same_place)
            (get_elem?-set-same output i x k),
        h,
      )
  | inr e ↦ elim w [
    | inl same_place ↦ let differs : j ≢ i = λ d. ground arith in absurd (differs same_place)
    | inr (y, old, said) ↦
        (y, get_elem?-set-other output j i x (λ same_place. ground arith) ∙ old, said)
  ]
]

settle_items-IsAnswered :
    (e : Option Err) (written : ℕ) (t : Tally) (ps : List Prepared) (output : List OperationResult)
    (i : ℕ)
    → i < length output
    → (has_index i ps ≡ true) ⊎ IsAnswered i output
    → IsAnswered i (settle_items e written t ps output)
unfolding settle_items
settle_items-IsAnswered e written t [] output i k (inl h) = cc
settle_items-IsAnswered e written t [] output i k (inr h) = h
settle_items-IsAnswered e written t (p ∷ ps) output i k w =
    settle_items-IsAnswered e written t ps (set output p.index x) i
      (rw (length-set output p.index x) k) (go w)
  where
    x : OperationResult
    x = settle e written t p

    go :
        (has_index i (p ∷ ps) ≡ true) ⊎ IsAnswered i output
        → (has_index i ps ≡ true) ⊎ IsAnswered i (set output p.index x)
    go (inr h) = inr (set-IsAnswered output i p.index x (settle-IsAnswer e written t p) k (inr h))
    go (inl h) = elim (Bool-cases (p.index == i)) [
      | inl here ↦
          inr (
            set-IsAnswered output i p.index x (settle-IsAnswer e written t p) k
              (inl (ground arith)))
      | inr other ↦ inl (ground arith)
    ]

resolve_outcome-IsAnswered :
    (g : Group) (x : Exchange) (output : List OperationResult) (i : ℕ)
    → i < length output
    → (has_index i g.items ≡ true) ⊎ IsAnswered i output
    → IsAnswered i (resolve_outcome g x output)
unfolding resolve_outcome resolve_group
resolve_outcome-IsAnswered g (answered r rs written) output i k w =
    settle_items-IsAnswered none written _ g.items output i k w
resolve_outcome-IsAnswered g (failed rs written e) output i k w =
    settle_items-IsAnswered (some e) written _ g.items output i k w

run_groups-IsAnswered :
    {W : Type 0} (net : Network W) (gs : List Group) (output : List OperationResult) (s : State W)
    (i : ℕ)
    → i < length output
    → (has_item i gs ≡ true) ⊎ IsAnswered i output
    → (rs : List OperationResult) × ((run_groups net gs output s).0 ≡ ok rs)
      × (length rs ≡ length output)
      × IsAnswered i rs
unfolding run_groups
run_groups-IsAnswered net [] output s i k (inl h) = cc
run_groups-IsAnswered net [] output s i k (inr h) = (output, refl, refl, h)
run_groups-IsAnswered {W} net (g ∷ gs) output s i k w =
    let (rs, run, n, said) =
      run_groups-IsAnswered net gs (resolve_outcome g x.0 output) (record s { world = x.1 }) i
        (rw (length-resolve_outcome g x.0 output) k) (go w) in
    (rs, run, n ∙ length-resolve_outcome g x.0 output, said)
  where
    x : Exchange × W
    x = net.exchange g.pool caller g.payload (λ r. is_noop r.code) s.world

    go :
        (has_item i (g ∷ gs) ≡ true) ⊎ IsAnswered i output
        → (has_item i gs ≡ true) ⊎ IsAnswered i (resolve_outcome g x.0 output)
    go (inr h) = inr (resolve_outcome-IsAnswered g x.0 output i k (inr h))
    go (inl h) = elim (Bool-cases (has_index i g.items)) [
      | inl e ↦ inr (resolve_outcome-IsAnswered g x.0 output i k (inl e))
      | inr e ↦ inl (rw e at h)
    ]

get_elem?-length {ℓ} :
    {A : Type ℓ} (xs : List A) (i : ℕ) {a : A} → get_elem? xs i ≡ some a → i < length xs
get_elem?-length [] i h = cc
get_elem?-length (x ∷ xs) zero h = omega arith
get_elem?-length (x ∷ xs) (suc i) h = let below = get_elem?-length xs i h in omega (arith, below)

-- A batch whose operations are all accepted, of a client that `New` has made, answers each of them,
-- whatever the exchanges with the servers bring: it succeeds with as many results as operations, and
-- the result at the place of an operation has an error or the outcome of a get, of a mutation or of
-- arithmetic.
pub batch-IsAnswered :
    {W : Type 0} (net : Network W) (first : Bytes) (options : List ClientOption) (c : Client)
    (os : List Submitted) (s : State W) (i : ℕ) {groups : List Group}
    → new_client first options ≡ ok c
    → plan_batch c os ≡ ok groups
    → i < length os
    → (rs : List OperationResult) × ((batch net c os s).0 ≡ ok rs)
      × (length rs ≡ length os)
      × IsAnswered i rs
unfolding batch
batch-IsAnswered net first options c [] s i made h k = absurd (omega (arith, k))
batch-IsAnswered net first options c (o ∷ os) s i {groups} made h k =
    let own : (key : Bytes) (j : ℕ) → server c key ≡ ok j → j < length c.addresses = λ key j found.
      let (a, there) = server-in_range first options key made found in
      get_elem?-length c.addresses j there in
    let blank = replicate (length (o ∷ os)) no_result in
    let (rs, run, n, said) =
      run_groups-IsAnswered net groups blank s i
        (rw (length-replicate (length (o ∷ os)) no_result) k)
        (inl (plan_batch-has c own (o ∷ os) i h k)) in
    (rs, rw h run, n ∙ length-replicate (length (o ∷ os)) no_result, said)
