-- ===== src/Verbs/Collections/Results.antt =====
-- What `SetMany` and `DeleteMany` make of the results of their batch.
use go_memcache.Base.{
  ℕ, ◌≡◌, refl, ◌∙◌, ap, Bool, true, false, not, Bool-cases, inl, inr, List, [], ◌∷◌, ◌++◌, Option,
  none, some, Bytes, map, if◌then◌else◌,
}
use go_memcache.Errors.{Err, Result, ok, err}
use go_memcache.Types.{Seconds, no_delete_options}
use go_memcache.Options.{Duration, resolve_ttl}
use go_memcache.Codec.{Codec, Payload}
use go_memcache.Client.{Client}
use go_memcache.Client.State.{Network, State}
use go_memcache.Client.Execute.{report_error, absorbs, absorb}
use go_memcache.Batch.{Submitted, value, delete_operation, OperationResult}
use go_memcache.Batch.Run.{batch}
use go_memcache.Verbs.Collections.{
  keep_first, settle_error, settle_errors, return_first, delete_many, set_operations, set_many,
}

abbrev with_error : Option Err → List Err → List Err
with_error none es = es
with_error (some e) es = e ∷ es

-- The errors of the results, in order.
unfoldable pub errors : List OperationResult → List Err
errors [] = []
errors (x ∷ xs) = with_error x.error (errors xs)

-- The errors of a list that a test picks.
unfoldable pub pick : (Err → Bool) → List Err → List Err
pick p [] = []
pick p (e ∷ es) = let rest = pick p es in if p e then e ∷ rest else rest

-- The state with each of the errors reported.
unfoldable pub report_all : {W : Type 0} → Client → List Err → State W → State W
report_all c [] s = s
report_all c (e ∷ es) s = report_all c es (report_error c e s)

-- The first error of a list, where a loop has none yet.
abbrev pub first_of : List Err → Result (Unit {0})
first_of [] = ok tt
first_of (e ∷ es) = err e

abbrev head_or : Option Err → List Err → Option Err
head_or (some e) es = some e
head_or none [] = none
head_or none (e ∷ es) = some e

module _ {W : Type 0} (net : Network W) (c : Client) where
  -- Whether the Degrade policy takes an error in.
  abbrev pub is_taken : W → Err → Bool
  is_taken w = absorbs c (net.ctx_err w)

  abbrev pub is_kept : W → Err → Bool
  is_kept w e = not (is_taken w e)

  report_error-world : (e : Err) (s : State W) → (report_error c e s).world ≡ s.world
  unfolding report_error
  report_error-world e s = go c.config.on_error
    where
      go :
          (hook : Option ℕ)
          → (elim hook as (λ _. State W) [
            | none ↦ s
            | some _ ↦ record s { reported = s.reported ++ e ∷ [] }
          ]).world
            ≡ s.world
      go none = refl
      go (some hook) = refl

  head_or-keep_first :
      (first : Option Err) (e : Err) (es : List Err)
      → head_or (keep_first first e) es ≡ head_or first (e ∷ es)
  unfolding keep_first
  head_or-keep_first none e es = refl
  head_or-keep_first (some f) e es = refl

  -- What the loop comes to from any error before it and any state of a world.
  abbrev Settles : List OperationResult → W → Type 0
  Settles xs w =
      (first : Option Err) (s : State W)
      → s.world ≡ w
      → settle_errors net c xs first s ≡ (
        head_or first (pick (is_kept w) (errors xs)),
        report_all c (pick (is_taken w) (errors xs)) s,
      )

  settle_error_lem :
      (o : Option Err) (xs : List OperationResult) (w : W)
      → Settles xs w
      → (first : Option Err) (s : State W) → s.world ≡ w
      → settle_errors net c xs (settle_error net c o first s).0 (settle_error net c o first s).1 ≡ (
        head_or first (pick (is_kept w) (with_error o (errors xs))),
        report_all c (pick (is_taken w) (with_error o (errors xs))) s,
      )
  unfolding pick report_all absorb settle_error
  settle_error_lem none xs w go first s h = go first s h
  settle_error_lem (some e) xs w go first s h = elim (Bool-cases (is_taken w e)) [
    | inl yes_taken ↦
        let here : is_taken s.world e ≡ true = ap (λ v. is_taken v e) h ∙ yes_taken in
        rw (here, yes_taken) (go first (report_error c e s) (report_error-world e s ∙ h))
    | inr no_taken ↦
        let here : is_taken s.world e ≡ false = ap (λ v. is_taken v e) h ∙ no_taken in
        rw (here, no_taken)
          (go (keep_first first e) s h
            ∙ ap (λ o. (o, report_all c (pick (is_taken w) (errors xs)) s))
                (head_or-keep_first first e (pick (is_kept w) (errors xs))))
  ]

  settle_errors_lem : (xs : List OperationResult) (w : W) → Settles xs w
  unfolding settle_errors errors pick report_all
  settle_errors_lem [] w none s h = refl
  settle_errors_lem [] w (some f) s h = refl
  settle_errors_lem (x ∷ xs) w first s h =
      settle_error_lem x.error xs w (settle_errors_lem xs w) first s h

  return_first_lem :
      (es : List Err) (s : State W) → return_first (head_or none es, s) ≡ (first_of es, s)
  unfolding return_first
  return_first_lem [] s = refl
  return_first_lem (e ∷ es) s = refl

  -- What the loop and the `return` behind it come to.
  return_lem :
      (xs : List OperationResult) (s : State W)
      → return_first (settle_errors net c xs none s) ≡ (
        first_of (pick (is_kept s.world) (errors xs)),
        report_all c (pick (is_taken s.world) (errors xs)) s,
      )
  return_lem xs s =
      ap return_first (settle_errors_lem xs s.world none s refl)
      ∙ return_first_lem (pick (is_kept s.world) (errors xs))
          (report_all c (pick (is_taken s.world) (errors xs)) s)

-- When the batch behind a `DeleteMany` has results, it returns the first of their errors that the
-- Degrade policy does not take in, or succeeds if there is none; all those that it takes in, and no
-- others, reach the hook, if there is one, in the order of the keys.
delete_many-results :
    {W : Type 0} (net : Network W) (c : Client) (keys : List Bytes) (s s' : State W)
    {results : List OperationResult}
    → batch net c (map (λ key. value (delete_operation key no_delete_options)) keys) s
      ≡ (ok results, s')
    → delete_many net c keys s ≡ (
      first_of (pick (is_kept net c s'.world) (errors results)),
      report_all c (pick (is_taken net c s'.world) (errors results)) s',
    )
unfolding delete_many
delete_many-results net c keys s s' {results} sent = rw sent (return_lem net c results s')

-- When the TTL of a `SetMany` is accepted, every value encodes to bytes that are not empty, and the
-- batch has results, it returns the first of their errors that the Degrade policy does not take in,
-- or succeeds if there is none; all those that it takes in, and no others, reach the hook, in the
-- order of the mapping.
pub set_many-results :
    {W V : Type 0} (net : Network W) (c : Client) (codec : Codec V)
    (mapping : List (Bytes × Payload V)) (ttl : Duration) (s s' : State W) {expiration : Seconds}
    {operations : List Submitted} {results : List OperationResult}
    → resolve_ttl (net.now s.world) ttl ≡ ok expiration
    → set_operations codec expiration mapping ≡ ok operations
    → batch net c operations s ≡ (ok results, s')
    → set_many net c codec mapping ttl s ≡ (
      first_of (pick (is_kept net c s'.world) (errors results)),
      report_all c (pick (is_taken net c s'.world) (errors results)) s',
    )
unfolding set_many
set_many-results net c codec mapping ttl s s' {results = results} accepted built sent =
    rw (accepted, built, sent) (return_lem net c results s')
