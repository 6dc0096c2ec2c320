-- ===== src/Transport/InOrder.antt =====
-- Which request of a connection of transport.go a response goes to.
use mathlib.Core.List.{foldl, append_assoc, foldl-append}
use mathlib.Core.Path.{subst}
use go_memcache.Base.{
  ℕ, ◌≡◌, ◌≢◌, refl, ap, sym, ◌∙◌, arith, Bool, true, false, Bool-cases, inl, inr, List, [], ◌∷◌,
  ◌++◌, All, map, ◌==◌, if◌then◌else◌,
}
use go_memcache.Types.{RawResponse}
use go_memcache.Options.{Config}
use go_memcache.Transport.{
  Request, MuxConn, Pool, update, update_self, modify_request, modify_conn, modify_request_self,
  modify_conn_self, complete,
}
use go_memcache.Transport.Connection.{arm_read_deadline}
use go_memcache.Transport.Reader.{got, append_response, pop, deliver, hand_over, receive}
use go_memcache.Transport.Moves.Steps.{answered_request, deliver-requests}

-- A response with the time at which it is read.
abbrev pub Reading : Type 0
Reading = ℕ × RawResponse

-- The reader of the connection takes a response.
abbrev pub read : Config → ℕ → Pool → Reading → Pool
read cfg c p x = receive cfg x.0 c (got x.1) p

-- An answer to a request: its last response ends it, and no other.
abbrev pub IsAnswer : (RawResponse → Bool) → List Reading → Type 0
IsAnswer stop [] = ⊥
IsAnswer stop (x ∷ []) = stop x.1 ≡ true
IsAnswer stop (x ∷ y ∷ g) = (stop x.1 ≡ false) × IsAnswer stop (y ∷ g)

-- What the answer makes of the request: a request that is done takes it in and stays as it was.
abbrev pub answer : List Reading → Request → Request
answer g r = answered_request (record r { responses = r.responses ++ map (λ x. x.1) g })

-- The connection is up, and these requests are in flight on it.
pub record IsServing (m : MuxConn) (is : List ℕ) : Type 0 where
  pub up : m.closed ≡ false
  pub kept : m.closing ≡ false
  pub inflight : m.inflight ≡ is

answer-append :
    (g : List Reading) (x : RawResponse) (r : Request)
    → answer g (append_response x r) ≡ answer ((0, x) ∷ g) r
unfolding append_response
answer-append g x r =
    ap (λ rs. answered_request (record r { responses = rs }))
      (append_assoc r.responses (x ∷ []) (map (λ y. y.1) g))

update-append :
    (i : ℕ) (f : Request → Request) (b : Request) (p : Pool) (j : ℕ)
    → update (modify_request i f p).requests i b j ≡ update p.requests i b j
unfolding modify_request
update-append i f b p j = elim (Bool-cases (i == j)) [
  | inl same ↦ rw same refl
  | inr other ↦ rw other refl
]

module _ (cfg : Config) (c i : ℕ) (rest : List ℕ) where
  read_more :
      (x : Reading) (p : Pool)
      → IsServing (p.connections c) (i ∷ rest)
      → (p.requests i).stop x.1 ≡ false
      → read cfg c p x ≡ modify_request i (append_response x.1) p
  unfolding receive hand_over
  read_more x p s h = rw (s.up, s.inflight, h) refl

  read_last :
      (x : Reading) (p : Pool)
      → IsServing (p.connections c) (i ∷ rest)
      → (p.requests i).stop x.1 ≡ true
      → read cfg c p x ≡ deliver x.0 c i rest (modify_request i (append_response x.1) p)
  unfolding receive hand_over
  read_last x p s h = rw (s.up, s.inflight, h) refl

  append-IsServing :
      (x : RawResponse) (p : Pool)
      → IsServing (p.connections c) (i ∷ rest)
      → IsServing ((modify_request i (append_response x) p).connections c) (i ∷ rest)
  unfolding modify_request
  append-IsServing x p s = record { up = s.up; kept = s.kept; inflight = s.inflight }

  arm-IsServing :
      (p : Pool)
      → IsServing (p.connections c) rest
      → IsServing ((arm_read_deadline c p).connections c) rest
  unfolding arm_read_deadline
  arm-IsServing p s =
      subst (λ m. IsServing m rest) (sym (modify_conn_self c _ p))
        (record { up = s.up; kept = s.kept; inflight = s.inflight })

  pop-IsServing :
      (now : ℕ) (p : Pool)
      → IsServing (p.connections c) (i ∷ rest)
      → IsServing ((modify_conn c (pop now rest) p).connections c) rest
  unfolding pop
  pop-IsServing now p s =
      subst (λ m. IsServing m rest) (sym (modify_conn_self c (pop now rest) p))
        (record { up = s.up; kept = s.kept; inflight = refl })

  deliver-IsServing :
      (now : ℕ) (p : Pool)
      → IsServing (p.connections c) (i ∷ rest)
      → IsServing ((deliver now c i rest p).connections c) rest
  unfolding deliver complete modify_request
  deliver-IsServing now p s =
      let popped = modify_conn c (pop now rest) p in
      let last = arm-IsServing popped (pop-IsServing now p s) in
      rw s.kept (record { up = last.up; kept = last.kept; inflight = last.inflight })

  -- One answer, read whole.
  answer_lem :
      (g : List Reading) (p : Pool)
      → IsServing (p.connections c) (i ∷ rest)
      → IsAnswer (p.requests i).stop g
      → IsServing ((foldl (read cfg c) p g).connections c) rest
        × ((j : ℕ)
            → (foldl (read cfg c) p g).requests j ≡ update p.requests i (answer g (p.requests i)) j)
  unfolding append_response
  answer_lem [] p s h = absurd h
  answer_lem (x ∷ []) p s h =
      let q = modify_request i (append_response x.1) p in
      let self = modify_request_self i (append_response x.1) p in
      rw (read_last x p s h) (
        deliver-IsServing x.0 q (append-IsServing x.1 p s),
        λ j. rw (deliver-requests x.0 c i rest q) (
            update-append i (append_response x.1) _ p j
            ∙ ap (λ r. update p.requests i (answered_request r) j) self),
      )
  answer_lem (x ∷ y ∷ g) p s (more, h) =
      let q = modify_request i (append_response x.1) p in
      let self = modify_request_self i (append_response x.1) p in
      let (serving, later) =
        answer_lem (y ∷ g) q (append-IsServing x.1 p s)
          (subst (λ r. IsAnswer r.stop (y ∷ g)) (sym self) h) in
      let P = λ (t : Pool).
        IsServing ((foldl (read cfg c) t (y ∷ g)).connections c) rest
        × ((j : ℕ)
            → (foldl (read cfg c) t (y ∷ g)).requests j
              ≡ update p.requests i (answer (x ∷ y ∷ g) (p.requests i)) j) in
      subst P (sym (read_more x p s more)) (
        serving,
        λ j.
            later j
            ∙ (update-append i (append_response x.1) (answer (y ∷ g) (q.requests i)) p j
                ∙ ap (λ r. update p.requests i r j)
                    (ap (answer (y ∷ g)) self ∙ answer-append (y ∷ g) x.1 (p.requests i))),
      )

-- The numbers are pairwise different.
abbrev pub IsDistinct : List ℕ → Type 0
IsDistinct [] = Unit
IsDistinct (i ∷ is) = All (λ j. i ≢ j) is × IsDistinct is

abbrev pub numbers : List (ℕ × List Reading) → List ℕ
numbers = map (λ a. a.0)

abbrev pub flat : List (ℕ × List Reading) → List Reading
flat [] = []
flat ((i, g) ∷ gs) = g ++ flat gs

-- What holds of the others may use that their numbers differ.
All-numbers {κ μ} :
    {P : ℕ × List Reading → Type κ} {Q : ℕ × List Reading → Type μ} (i : ℕ)
    (gs : List (ℕ × List Reading))
    → ((a : ℕ × List Reading) → i ≢ a.0 → P a → Q a)
    → All (λ j. i ≢ j) (numbers gs)
    → All P gs
    → All Q gs
All-numbers i [] f new h = tt
All-numbers i (a ∷ gs) f (e, new) (first, h) = (f a e first, All-numbers i gs f new h)

update-other {ℓ} : {A : Type ℓ} (f : ℕ → A) (i : ℕ) (a : A) (j : ℕ) → i ≢ j → update f i a j ≡ f j
update-other f i a j h = ground arith

-- The request `j` behind the answers: its own answer, if there is one, and nothing else.
abbrev pub served : List (ℕ × List Reading) → ℕ → Request → Request
served [] j r = r
served ((i, g) ∷ gs) j r = if i == j then answer g r else served gs j r

served-absent :
    (gs : List (ℕ × List Reading)) (j : ℕ) (r : Request)
    → All (λ k. j ≢ k) (numbers gs)
    → served gs j r ≡ r
served-absent [] j r h = refl
served-absent ((i, g) ∷ gs) j r (e, h) =
    let other : i == j ≡ false = ground arith in rw other (served-absent gs j r h)

-- A connection hands out its answers in the order in which the requests went in flight: when what
-- the server sends is one whole answer for each of the first requests in flight, pairwise
-- different, each of them takes in its own answer, none of anybody else's, and is settled with the
-- responses that it has, all its bytes and no error, unless it was done already; every other
-- request stays as it was, and those behind are in flight still.
pub in_order :
    (cfg : Config) (c : ℕ) (gs : List (ℕ × List Reading)) (rest : List ℕ) (p : Pool)
    → IsServing (p.connections c) (numbers gs ++ rest)
    → IsDistinct (numbers gs)
    → All (λ a. IsAnswer (p.requests a.0).stop a.1) gs
    → let q : Pool = foldl (read cfg c) p (flat gs) in
      IsServing (q.connections c) rest × ((j : ℕ) → q.requests j ≡ served gs j (p.requests j))
in_order cfg c [] rest p s d h = (s, λ j. refl)
in_order cfg c ((i, g) ∷ gs) rest p s (new, d) (mine, h) =
    let q = foldl (read cfg c) p g in
    let (s1, read_g) = answer_lem cfg c i (numbers gs ++ rest) g p s mine in
    let same : (j : ℕ) → i ≢ j → q.requests j ≡ p.requests j =
      λ j e. read_g j ∙ update-other p.requests i (answer g (p.requests i)) j e in
    let (s2, read_gs) =
      in_order cfg c gs rest q s1 d
        (All-numbers i gs (λ a e. subst (λ r. IsAnswer r.stop a.1) (sym (same a.0 e))) new h) in
    subst
      (λ (t : Pool).
        IsServing (t.connections c) rest
        × ((j : ℕ) → t.requests j ≡ served ((i, g) ∷ gs) j (p.requests j)))
      (sym (foldl-append (read cfg c) p g (flat gs)))
      (
        s2,
        λ j. read_gs j ∙ elim (Bool-cases (i == j)) [
          | inl e ↦
              let same_number : i ≡ j = ground arith in
              rw e (
                subst (λ k. served gs k (q.requests k) ≡ answer g (p.requests k)) same_number
                  (served-absent gs i (q.requests i) new
                    ∙ (read_g i ∙ update_self p.requests i (answer g (p.requests i)))))
          | inr e ↦ rw e (ap (served gs j) (same j (ground arith)))
        ],
      )
