-- ===== src/Transport/Moves/Claiming.antt =====
-- The requests under the critical section of the writer, and under the marks of a flush.
use go_memcache.Base.{
  ℕ, ◌+◌, ◌≤◌, ◌≡◌, refl, ◌∙◌, arith, List, [], ◌∷◌, Option, none, some, if◌then◌else◌, length, ltb,
}
use go_memcache.Errors.{Err}
use go_memcache.Transport.{
  RequestState, writing, waiting, ended, Request, Pool, modify_request, modify_conn, complete,
  is_queued, complete_request, is_done,
}
use go_memcache.Transport.Connection.{arm_read_deadline}
use go_memcache.Transport.Teardown.{is_empty}
use go_memcache.Transport.Writer.{claim_request, claim_all, start_flush, claim, set_worker}
use go_memcache.Transport.Flush.{
  write_all, flush_buffer, put_on_wire, unclaim, cut_tail, trim, mark_all,
}
use go_memcache.Transport.Reader.{append_response}
use go_memcache.Transport.Moves.{
  Move, Moves, stay, go, Moved, Moved-refl, Moved-trans, if-Moved, modify_request-Moved, claimed,
  marked,
}
use go_memcache.Transport.Moves.Operations.{Moved-of_eq, modify_conn-requests}

pub claim_all-Moved : (c : ℕ) (is : List ℕ) (p : Pool) → Moved p (claim_all c is p).1
unfolding claim_all
claim_all-Moved c [] p = Moved-refl p
claim_all-Moved c (i ∷ is) p =
    let q = modify_request i (claim_request c) p in
    Moved-trans p q (claim_all c is q).1 (modify_request-Moved i (claim_request c) p (claimed c))
      (claim_all-Moved c is q)

pub start_flush-requests :
    (c : ℕ) (batch : List ℕ) (p : Pool) → (start_flush c batch p).requests ≡ p.requests
unfolding start_flush modify_conn arm_read_deadline
start_flush-requests c batch p = ground arith

pub claim-Moved : (c : ℕ) (p : Pool) → Moved p (claim c p)
unfolding claim
claim-Moved c p =
    let m = p.connections c in
    let s = modify_conn c (λ m'. record m' { pending = [] }) p in
    let batch = (claim_all c m.pending s).0 in
    let q = (claim_all c m.pending s).1 in
    let claimed_all =
      Moved-trans p s q (Moved-of_eq p s (modify_conn-requests c _ p))
        (claim_all-Moved c m.pending s) in
    let idle = modify_conn c (set_worker waiting) q in
    let over = modify_conn c (set_worker ended) p in
    let busy = start_flush c batch q in
    if-Moved p m.closed over (if is_empty batch then idle else busy)
      (λ _. Moved-of_eq p over (modify_conn-requests c (set_worker ended) p))
      (λ _.
        if-Moved p (is_empty batch) idle busy
          (λ _.
            Moved-trans p q idle claimed_all
              (Moved-of_eq q idle (modify_conn-requests c (set_worker waiting) q)))
          (λ _.
            Moved-trans p q busy claimed_all (Moved-of_eq q busy (start_flush-requests c batch q))))

-- The payload of a request never changes.
pub Move-payload : {r s : Request} → Move r s → s.payload ≡ r.payload
unfolding complete_request claim_request put_on_wire unclaim append_response
    go_memcache.Transport.Exchange.abandon_request go_memcache.Transport.Exchange.return_request
Move-payload (Move.completed rs n e h) = ground arith
Move-payload _ = refl

pub Moves-payload : {r s : Request} → Moves r s → s.payload ≡ r.payload
Moves-payload stay = refl
Moves-payload (go ms m) = Move-payload m ∙ Moves-payload ms

pub flush_buffer-Moved :
    (p q : Pool) (is : List ℕ) → Moved p q → flush_buffer q.requests is ≡ flush_buffer p.requests is
unfolding flush_buffer
flush_buffer-Moved p q [] m = refl
flush_buffer-Moved p q (i ∷ is) m = rw (Moves-payload (m.each i), flush_buffer-Moved p q is m) refl

-- A write without an error has written everything.
pub write_all-whole :
    (unexpected : Err) (size written : ℕ) (answers : List (ℕ × Option Err)) {n : ℕ}
    → write_all unexpected size written answers ≡ some (n, none)
    → size ≤ n
unfolding write_all
write_all-whole unexpected size written [] h = ground arith
write_all-whole unexpected size written ((k, e) ∷ answers) {n} h =
    ground (arith, write_all-whole unexpected size (written + k) answers {n = n})

pub cut_tail-requests : (c k : ℕ) (p : Pool) → (cut_tail c k p).requests ≡ p.requests
unfolding cut_tail modify_conn
cut_tail-requests c k p = ground arith

pub trim-Moved :
    (c written start : ℕ) (batch : List ℕ) (p : Pool) → Moved p (trim c written start batch p)
unfolding trim
trim-Moved c written start [] p = Moved-refl p
trim-Moved c written start (i ∷ is) p =
    let end = start + length (p.requests i).payload in
    let q = modify_request i put_on_wire p in
    let cut = cut_tail c (length (i ∷ is)) p in
    if-Moved p (ltb written end) cut (trim c written end is q)
      (λ _. Moved-of_eq p cut (cut_tail-requests c (length (i ∷ is)) p))
      (λ _.
        Moved-trans p q (trim c written end is q) (modify_request-Moved i put_on_wire p marked)
          (trim-Moved c written end is q))

pub mark_all-Moved : (batch : List ℕ) (p : Pool) → Moved p (mark_all batch p)
unfolding mark_all
mark_all-Moved [] p = Moved-refl p
mark_all-Moved (i ∷ is) p =
    let q = modify_request i put_on_wire p in
    Moved-trans p q (mark_all is q) (modify_request-Moved i put_on_wire p marked)
      (mark_all-Moved is q)
