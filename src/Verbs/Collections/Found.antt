-- ===== src/Verbs/Collections/Found.antt =====
-- What `GetMany` finds.
use go_memcache.Base.{
  ◌≡◌, ◌≢◌, refl, sym, ◌∙◌, ap, arith, false, not, ◌&&◌, Bool-cases, inl, inr, List, [], ◌∷◌, ◌++◌,
  Option, none, some, Bytes, map, if◌then◌else◌, same, same_iff, same_refl, length, All,
}
use go_memcache.Errors.{Err, Result, ok, err}
use go_memcache.Types.{GetResult, MetaGetOptions, is_hit}
use go_memcache.Options.{CallPolicy, Duration, call_policy, apply_gets}
use go_memcache.Codec.{Codec, Payload, Target, decode}
use go_memcache.Command.Get.{is_empty}
use go_memcache.Client.{Client}
use go_memcache.Client.State.{Network, State}
use go_memcache.Batch.{value, get_operation, OperationResult}
use go_memcache.Batch.Run.{batch}
use go_memcache.Verbs.Get.{policy_read_options}
use go_memcache.Verbs.Collections.{
  lookup, store, Collected, collect_decoded, collect_hit, collect_get, collect_outcome,
  collect_result, collect_results, get_many,
}

same_differs : (a b : Bytes) → a ≢ b → same a b ≡ false
same_differs a b h = elim (Bool-cases (same a b)) [
  | inl e ↦ absurd (h ((same_iff a b).0 e))
  | inr e ↦ e
]

module _ {A : Type 0} where
  lookup-store : (key : Bytes) (a : A) (m : List (Bytes × A)) → lookup key (store key a m) ≡ some a
  unfolding lookup store
  lookup-store key a [] = rw (same_refl key) refl
  lookup-store key a ((k, b) ∷ m) = elim (Bool-cases (same k key)) [
    | inl e ↦ rw (e, e) refl
    | inr e ↦ rw (e, e) (lookup-store key a m)
  ]

  lookup-store-other :
      (key k : Bytes) (a : A) (m : List (Bytes × A))
      → key ≢ k
      → lookup k (store key a m) ≡ lookup k m
  unfolding lookup store
  lookup-store-other key k a [] h = rw (same_differs key k h) refl
  lookup-store-other key k a ((j, b) ∷ m) h = elim (Bool-cases (same j key)) [
    | inl e ↦
        let differs = same_differs j k (λ d. h (sym ((same_iff j key).0 e) ∙ d)) in
        rw (e, differs) refl
    | inr e ↦ rw e (ap (λ o. if same j k then some b else o) (lookup-store-other key k a m h))
  ]

-- The value that a result has for its key: that of a hit that is not empty and decodes.
abbrev pub decoded_value : {V : Type 0} → Result (Payload V) → Option (Payload V)
decoded_value (ok v) = some v
decoded_value (err e) = none

abbrev pub hit_value : {V : Type 0} → Codec V → Target → Option GetResult → Option (Payload V)
hit_value codec target none = none
hit_value codec target (some r) =
    if is_hit r.status && not (is_empty r.value)
    then decoded_value (decode codec target r.value)
    else none

abbrev result_or_error :
    {V : Type 0} → Codec V → Target → Option Err → Option GetResult → Option (Payload V)
result_or_error codec target none r = hit_value codec target r
result_or_error codec target (some e) r = none

abbrev pub result_value : {V : Type 0} → Codec V → Target → OperationResult → Option (Payload V)
result_value codec target x = result_or_error codec target x.error x.get

abbrev or_else : {A : Type 0} → Option A → Option A → Option A
or_else none o = o
or_else (some a) o = some a

or_else-none : {A : Type 0} (o : Option A) → or_else o none ≡ o
or_else-none none = refl
or_else-none (some a) = refl

module _ {W V : Type 0} (net : Network W) (c : Client) (codec : Codec V) (target : Target) where
  -- What one round does to the value of its own key, and to those of the others.
  collect_decoded-own :
      (key : Bytes) (r : Result (Payload V)) (f : Collected V)
      → lookup key (collect_decoded key r f).found ≡ or_else (decoded_value r) (lookup key f.found)
  unfolding collect_decoded
  collect_decoded-own key (ok v) f = lookup-store key v f.found
  collect_decoded-own key (err e) f = refl

  collect_decoded-other :
      (key k : Bytes) (r : Result (Payload V)) (f : Collected V)
      → key ≢ k
      → lookup k (collect_decoded key r f).found ≡ lookup k f.found
  unfolding collect_decoded
  collect_decoded-other key k (ok v) f h = lookup-store-other key k v f.found h
  collect_decoded-other key k (err e) f h = refl

  collect_get-own :
      (key : Bytes) (r : Option GetResult) (f : Collected V) (s : State W)
      → lookup key (collect_get net codec target key r f s).0.found
        ≡ or_else (hit_value codec target r) (lookup key f.found)
  unfolding collect_get collect_hit
  collect_get-own key none f s = refl
  collect_get-own key (some r) f s = elim (Bool-cases (is_hit r.status)) [
    | inr e ↦ rw e refl
    | inl e ↦ elim (Bool-cases (is_empty r.value)) [
      | inl k ↦ rw (e, k) refl
      | inr k ↦ rw (e, k) (collect_decoded-own key (decode codec target r.value) f)
    ]
  ]

  collect_get-other :
      (key k : Bytes) (r : Option GetResult) (f : Collected V) (s : State W)
      → key ≢ k
      → lookup k (collect_get net codec target key r f s).0.found ≡ lookup k f.found
  unfolding collect_get collect_hit
  collect_get-other key k none f s h = refl
  collect_get-other key k (some r) f s h = elim (Bool-cases (is_hit r.status)) [
    | inr e ↦ rw e refl
    | inl e ↦ elim (Bool-cases (is_empty r.value)) [
      | inl d ↦ rw (e, d) refl
      | inr d ↦ rw (e, d) (collect_decoded-other key k (decode codec target r.value) f h)
    ]
  ]

  collect_outcome-own :
      (key : Bytes) (e : Option Err) (r : Option GetResult) (f : Collected V) (s : State W)
      → lookup key (collect_outcome net c codec target key e r f s).0.found
        ≡ or_else (result_or_error codec target e r) (lookup key f.found)
  unfolding collect_outcome
  collect_outcome-own key none r f s = collect_get-own key r f s
  collect_outcome-own key (some e) r f s = refl

  collect_outcome-other :
      (key k : Bytes) (e : Option Err) (r : Option GetResult) (f : Collected V) (s : State W)
      → key ≢ k
      → lookup k (collect_outcome net c codec target key e r f s).0.found ≡ lookup k f.found
  unfolding collect_outcome
  collect_outcome-other key k none r f s h = collect_get-other key k r f s h
  collect_outcome-other key k (some e) r f s h = refl

  -- The loop over keys of which none is `k`.
  collect_results-other :
      (keys : List Bytes) (k : Bytes) (xs : List OperationResult) (f : Collected V) (s : State W)
      → All (λ key. key ≢ k) keys
      → lookup k (collect_results net c codec target keys xs f s).0.found ≡ lookup k f.found
  unfolding collect_results collect_result
  collect_results-other [] k xs f s h = refl
  collect_results-other (key ∷ keys) k [] f s h = refl
  collect_results-other (key ∷ keys) k (x ∷ xs) f s (e, h) =
      collect_results-other keys k xs _ _ h ∙ collect_outcome-other key k x.error x.get f s e

  -- The value of a key that stands at one place only.
  collect_results-own :
      (pre post : List Bytes) (k : Bytes) (xs ys : List OperationResult) (x : OperationResult)
      (f : Collected V) (s : State W)
      → length xs ≡ length pre
      → All (λ key. key ≢ k) pre
      → All (λ key. key ≢ k) post
      → lookup k f.found ≡ none
      → lookup k (collect_results net c codec target (pre ++ k ∷ post) (xs ++ x ∷ ys) f s).0.found
        ≡ result_value codec target x
  unfolding collect_results collect_result
  collect_results-own [] post k [] ys x f s n before behind new =
      collect_results-other post k ys _ _ behind
      ∙ collect_outcome-own k x.error x.get f s
      ∙ rw new (or_else-none (result_value codec target x))
  collect_results-own [] post k (_ ∷ xs) ys x f s n before behind new = absurd (omega (arith, n))
  collect_results-own (key ∷ pre) post k [] ys x f s n before behind new = absurd (omega (arith, n))
  collect_results-own (key ∷ pre) post k (z ∷ xs) ys x f s n (e, before) behind new =
      collect_results-own pre post k xs ys x _ _ (omega (arith, n)) before behind
        (collect_outcome-other key k z.error z.get f s e ∙ new)

-- When the options of a `GetMany` are accepted and its batch has results, it returns a mapping, in
-- which a key that is asked for once has exactly the value of the result beside it: that of a hit
-- that is not empty and decodes, and none for any other result, an error included.
pub get_many-found :
    {W V : Type 0} (net : Network W) (c : Client) (codec : Codec V) (target : Target)
    (options : List (Option Duration)) (pre post : List Bytes) (k : Bytes)
    (xs ys : List OperationResult) (x : OperationResult) (s s' : State W) {policy : CallPolicy}
    {read : MetaGetOptions}
    → apply_gets options (call_policy c.config) ≡ ok policy
    → policy_read_options (net.now s.world) policy.touch ≡ ok read
    → batch net c (map (λ key. value (get_operation key read)) (pre ++ k ∷ post)) s
      ≡ (ok (xs ++ x ∷ ys), s')
    → length xs ≡ length pre
    → All (λ key. key ≢ k) pre
    → All (λ key. key ≢ k) post
    → (f : Collected V) × ((get_many net c codec target (pre ++ k ∷ post) options s).0 ≡ ok f)
      × (lookup k f.found ≡ result_value codec target x)
unfolding get_many lookup
get_many-found {V = V} net c codec target options pre post k xs ys x s s' accepted built sent n
      before behind =
    let empty : Collected V = record { found = []; first_err = none } in
    (
      (collect_results net c codec target (pre ++ k ∷ post) (xs ++ x ∷ ys) empty s').0,
      rw (accepted, built, sent) refl,
      collect_results-own net c codec target pre post k xs ys x empty s' n before behind refl,
    )
