-- ===== src/Transport/Moves/Steps.antt =====
-- Every step of the pool changes the requests by moves.
use go_memcache.Base.{
  ℕ, ◌<◌, ◌≡◌, refl, arith, Bool, true, false, ◌&&◌, Bool-cases, inl, inr, List, [], ◌∷◌, ◌++◌,
  Option, none, some, Bytes, any, if◌then◌else◌, length, ◌==◌,
}
use go_memcache.Errors.{
  Err, CtxErr, closed, deadline_exceeded, context, protocol, response_without_request,
}
use go_memcache.Types.{RawResponse}
use go_memcache.Options.{Config}
use go_memcache.Transport.{
  ended, done, Request, new_request, Pool, update, update-elim, modify_request, modify_request_self,
  modify_conn, complete_request, complete,
}
use go_memcache.Transport.Connection.{arm_read_deadline}
use go_memcache.Transport.Pick.{enqueue, pick_and_add}
use go_memcache.Transport.Teardown.{is_empty, fail}
use go_memcache.Transport.Exchange.{
  deadline_of, allocate, after_enqueue, submit, return_request, collect,
}
use go_memcache.Transport.Writer.{dialed, dial_failed, awaken, set_worker}
use go_memcache.Transport.Flush.{flush_buffer}
use go_memcache.Transport.Reader.{
  Received, got, broke, append_response, deliver, hand_over, receive,
}
use go_memcache.Transport.System.{
  Step, submitted, collected, given_up, dial_ended, dial_broke, woken, claimed, flushed, received,
  shut,
}
use go_memcache.Transport.Moves.{
  Moves, stay, go, Moved, Moved-refl, Moved-trans, if-Moved, modify_request-Moved, answered,
  completed, returned,
}
use go_memcache.Transport.Moves.Operations.{
  Moved-of_eq, modify_conn-requests, fail-Moved, close-Moved, give_up-Moved, pick_and_add-requests,
}
use go_memcache.Transport.Moves.Claiming.{claim-Moved, write_all-whole}
use go_memcache.Transport.Moves.Flushing.{finish_flush-Moved}

any-append {ℓ} :
    {A : Type ℓ} (t : A → Bool) (xs : List A) (x : A) → t x ≡ true → any t (xs ++ x ∷ []) ≡ true
any-append t [] x h = rw h
any-append t (y ∷ xs) x h = rw (any-append t xs x h) (ground arith)

-- What an answered request becomes.
abbrev pub answered_request : Request → Request
answered_request r = complete_request r.responses (length r.payload) none r

pub deliver-requests :
    (now c i : ℕ) (rest : List ℕ) (p : Pool)
    → (deliver now c i rest p).requests ≡ update p.requests i (answered_request (p.requests i))
unfolding deliver complete modify_request modify_conn arm_read_deadline
deliver-requests now c i rest p = elim (Bool-cases ((p.connections c).closing && is_empty rest)) [
  | inl last ↦ rw last refl
  | inr more ↦ rw more refl
]

deliver-Moved :
    (now c i : ℕ) (rest : List ℕ) (p : Pool)
    → any (p.requests i).stop (p.requests i).responses ≡ true
    → Moved p (deliver now c i rest p)
deliver-Moved now c i rest p h =
    let r = p.requests i in
    record {
      each = rw (deliver-requests now c i rest p) (
          update-elim (λ j s. Moves (p.requests j) s) p.requests i (answered_request r)
            (go stay (completed r.responses (length r.payload) none (λ _. h))) (λ j. stay));
    }

hand_over-Moved :
    (cfg : Config) (now c : ℕ) (x : RawResponse) (is : List ℕ) (p : Pool)
    → Moved p (hand_over cfg now c x is p)
unfolding hand_over append_response
hand_over-Moved cfg now c x [] p = fail-Moved cfg now c (protocol response_without_request) true p
hand_over-Moved cfg now c x (i ∷ rest) p =
    let r = p.requests i in
    let q = modify_request i (append_response x) p in
    let last = deliver now c i rest q in
    let appended = modify_request-Moved i (append_response x) p (answered x) in
    elim (Bool-cases (r.stop x)) [
      | inl stops ↦ rw stops (
          Moved-trans p q last appended (
            deliver-Moved now c i rest q (
              rw (modify_request_self i (append_response x) p)
                (any-append r.stop r.responses x stops))))
      | inr goes_on ↦ rw goes_on appended
    ]

receive-Moved :
    (cfg : Config) (now c : ℕ) (x : Received) (p : Pool) → Moved p (receive cfg now c x p)
unfolding receive
receive-Moved cfg now c (broke timeout e) p =
    fail-Moved cfg now c (if timeout then context deadline_exceeded else e) true p
receive-Moved cfg now c (got x) p =
    let m = p.connections c in
    if-Moved p m.closed p (hand_over cfg now c x m.inflight p) (λ _. Moved-refl p)
      (λ _. hand_over-Moved cfg now c x m.inflight p)

dial_failed-Moved :
    (cfg : Config) (now c : ℕ) (e : Err) (p : Pool) → Moved p (dial_failed cfg now c e p)
unfolding dial_failed
dial_failed-Moved cfg now c e p =
    let q = fail cfg now c e false p in
    let s = modify_conn c (set_worker ended) q in
    Moved-trans p q s (fail-Moved cfg now c e false p)
      (Moved-of_eq q s (modify_conn-requests c (set_worker ended) q))

-- A request changes by moves, or is the one that is made.
pub data Change (p q : Pool) (j : ℕ) : Type 0 where
  moves : Moves (p.requests j) (q.requests j) → Change p q j
  made :
      p.next_request ≡ j
      → (payload : Bytes) (stop : RawResponse → Bool) (deadline : Option ℕ)
      → q.requests j ≡ new_request payload stop deadline
      → Change p q j

submit-Change :
    (cfg : Config) (now : ℕ) (own_err : Option CtxErr) (own : Option ℕ) (payload : Bytes)
    (stop : RawResponse → Bool) (p : Pool) (j : ℕ)
    → Change p (submit cfg now own_err own payload stop p).1 j
unfolding submit enqueue allocate after_enqueue
submit-Change cfg now (some e) own payload stop p j = moves stay
submit-Change cfg now none own payload stop p j =
    let deadline = deadline_of cfg now own in
    let q = allocate (new_request payload stop deadline) p in
    let added = pick_and_add cfg now p.next_request q in
    let same = pick_and_add-requests cfg now p.next_request q in
    elim p.closed
      as (λ b. Change p (after_enqueue p (if b then (some closed, q) else (none, added))).1 j) [
        | true ↦ moves stay
        | false ↦ elim (Bool-cases (p.next_request == j)) [
          | inl new ↦ made (ground arith) payload stop deadline (rw (same, new) refl)
          | inr old ↦ moves (rw (same, old) stay)
        ]
      ]

pub Step-Change :
    {cfg : Config} {p q : Pool}
    → ((i : ℕ) → 0 < (p.requests i).closings → (p.requests i).state ≡ done)
    → Step cfg p q
    → (j : ℕ) → Change p q j
unfolding collect
Step-Change {cfg} {p} settled (submitted now own_err own payload stop) j =
    submit-Change cfg now own_err own payload stop p j
Step-Change {p} settled (collected i h fresh) j =
    moves ((modify_request-Moved i return_request p (returned (settled i h) fresh)).each j)
Step-Change {cfg} {p} settled (given_up now i e h fresh) j =
    moves ((give_up-Moved cfg now i e p fresh).each j)
Step-Change {p} settled (dial_ended c h w) j =
    moves ((Moved-of_eq p (modify_conn c dialed p) (modify_conn-requests c dialed p)).each j)
Step-Change {cfg} {p} settled (dial_broke now c e h w) j =
    moves ((dial_failed-Moved cfg now c e p).each j)
Step-Change {p} settled (woken c w t) j =
    moves ((Moved-of_eq p (modify_conn c awaken p) (modify_conn-requests c awaken p)).each j)
Step-Change {p} settled (claimed c w) j = moves ((claim-Moved c p).each j)
Step-Change {cfg} {p} settled (flushed now c written e batch unexpected answers w h) j = moves (
    (finish_flush-Moved cfg now c batch written e p (λ none_e.
        write_all-whole unexpected (length (flush_buffer p.requests batch)) 0 answers
          (rw (← none_e) h))).each
      j)
Step-Change {cfg} {p} settled (received now c x h) j = moves ((receive-Moved cfg now c x p).each j)
Step-Change {p} settled shut j = moves ((close-Moved p).each j)
