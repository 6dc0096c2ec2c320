-- ===== src/Batch/Resolve/Answers.antt =====
-- The loop over the responses in `resolveGroup` of batch.go, when a server answers as it should.
use go_memcache.Base.{
  ℕ, ◌<◌, ◌^◌, ◌≡◌, ◌≢◌, refl, ◌∙◌, ap, sym, arith, true, false, List, [], ◌∷◌, none, some, Bytes,
  All,
}
use go_memcache.Base.Int.{pos}
use go_memcache.Std.Decimal.{format_uint, parse_int}
use go_memcache.Std.Decimal.RoundTrip.{parse_int-format_uint, format_uint-ne-nil}
use go_memcache.Types.{ResponseCode, RawResponse, empty_response}
use go_memcache.Verbs.Meta.{is_noop}
use go_memcache.Batch.{Prepared}
use go_memcache.Batch.Resolve.{
  Tally, find, member, is_expected, tally_expected, tally_index, tally_opaque, tally_code,
  tally_responses,
}

-- A response to the operation of a number: with its token, and not the barrier.
pub record IsAnswer (items : List Prepared) (j : ℕ) (r : RawResponse) : Type 0 where
  pub no_barrier : is_noop r.code ≡ false
  pub token : r.opaque ≡ format_uint j
  pub small : j < 2 ^ 63
  pub expected : is_expected j items ≡ true

-- The answers name pairwise different operations.
abbrev pub AreDistinct : List (ℕ × RawResponse) → Type 0
AreDistinct [] = Unit
AreDistinct (p ∷ ps) = All (λ q. q.0 ≢ p.0) ps × AreDistinct ps

-- No answer names the operation.
abbrev pub IsSilent : ℕ → List (ℕ × RawResponse) → Type 0
IsSilent j = All (λ q. q.0 ≢ j)

tally_code-no_barrier :
    (items : List Prepared) (code : ResponseCode) (r : RawResponse) (t : Tally)
    → is_noop code ≡ false
    → tally_code items code r t ≡ tally_opaque items r.opaque r t
unfolding tally_code is_noop
tally_code-no_barrier items ResponseCode.noop r t h = cc
tally_code-no_barrier items _ r t h = refl

tally_index-expected :
    (items : List Prepared) (j : ℕ) (r : RawResponse) (t : Tally)
    → is_expected j items ≡ true
    → tally_index items (some (pos j)) r t ≡ tally_expected j r t
unfolding tally_index
tally_index-expected items j r t h = rw h refl

tally_opaque-token :
    (items : List Prepared) (token : Bytes) (j : ℕ) (r : RawResponse) (t : Tally)
    → token ≢ []
    → parse_int token ≡ some (pos j)
    → is_expected j items ≡ true
    → tally_opaque items token r t ≡ tally_expected j r t
unfolding tally_opaque
tally_opaque-token items [] j r t h k e = absurd (h refl)
tally_opaque-token items (c ∷ token) j r t h k e = rw k (tally_index-expected items j r t e)

tally_expected-new :
    (j : ℕ) (r : RawResponse) (t : Tally)
    → find j t.by_index ≡ none
    → t.bad ≡ []
    → tally_expected j r t ≡ record t { by_index = (j, r) ∷ t.by_index }
unfolding tally_expected member
tally_expected-new j r t h k = rw (h, k) refl

-- An answer counts for the operation that it names.
pub tally_code-expected :
    (items : List Prepared) (j : ℕ) (r : RawResponse) (t : Tally)
    → IsAnswer items j r
    → tally_code items r.code r t ≡ tally_expected j r t
tally_code-expected items j r t a =
    tally_code-no_barrier items r.code r t a.no_barrier
    ∙ ap (λ token. tally_opaque items token r t) a.token
    ∙ tally_opaque-token items (format_uint j) j r t (format_uint-ne-nil j)
        (parse_int-format_uint j a.small) a.expected

tally_code-answer :
    (items : List Prepared) (j : ℕ) (r : RawResponse) (t : Tally)
    → IsAnswer items j r
    → find j t.by_index ≡ none
    → t.bad ≡ []
    → tally_code items r.code r t ≡ record t { by_index = (j, r) ∷ t.by_index }
tally_code-answer items j r t a h k =
    tally_code-expected items j r t a ∙ tally_expected-new j r t h k

-- The map behind answers, as the loop builds it.
abbrev pub pushed : List (ℕ × RawResponse) → List (ℕ × RawResponse) → List (ℕ × RawResponse)
pushed [] m = m
pushed (p ∷ ps) m = pushed ps (p ∷ m)

find-other :
    (j i : ℕ) (r : RawResponse) (m : List (ℕ × RawResponse))
    → i ≢ j
    → find j ((i, r) ∷ m) ≡ find j m
unfolding find
find-other j i r m h = ground arith

pub find-pushed :
    (j : ℕ) (ps m : List (ℕ × RawResponse)) → IsSilent j ps → find j (pushed ps m) ≡ find j m
find-pushed j [] m h = refl
find-pushed j (p ∷ ps) m h = find-pushed j ps (p ∷ m) h.1 ∙ find-other j p.0 p.1 m h.0

-- The barrier's response.
abbrev pub barrier_response : RawResponse
barrier_response = empty_response ResponseCode.noop

-- The responses of the answers, and the barrier behind them.
abbrev pub responses_of : List (ℕ × RawResponse) → List RawResponse
responses_of [] = barrier_response ∷ []
responses_of (p ∷ ps) = p.1 ∷ responses_of ps

-- What the loop has collected behind the answers.
abbrev pub collected : List (ℕ × RawResponse) → Tally → Tally
collected ps t = record t { by_index = pushed ps t.by_index; barrier = true }

silent-tail :
    (p : ℕ × RawResponse) (ps m : List (ℕ × RawResponse))
    → IsSilent p.0 ps
    → All (λ q. find q.0 m ≡ none) ps
    → All (λ q. find q.0 (p ∷ m) ≡ none) ps
silent-tail p [] m h k = tt
silent-tail p (q ∷ ps) m h k =
    (find-other q.0 p.0 p.1 m (λ e. h.0 (sym e)) ∙ k.0, silent-tail p ps m h.1 k.1)

pub tally_responses-answers :
    (items : List Prepared) (ps : List (ℕ × RawResponse)) (t : Tally)
    → All (λ p. IsAnswer items p.0 p.1) ps
    → AreDistinct ps
    → All (λ p. find p.0 t.by_index ≡ none) ps
    → t.bad ≡ []
    → tally_responses items (responses_of ps) t ≡ collected ps t
unfolding tally_responses
tally_responses-answers items [] t a d n b = unfold tally_code in refl
tally_responses-answers items (p ∷ ps) t a d n b =
    let u = record t { by_index = p ∷ t.by_index } in
    ap (tally_responses items (responses_of ps)) (tally_code-answer items p.0 p.1 t a.0 n.0 b)
    ∙ tally_responses-answers items ps u a.1 d.1 (silent-tail p ps t.by_index d.0 n.1) b
