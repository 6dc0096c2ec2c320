-- ===== src/Transport/Limit/Same.antt =====
-- What leaves the connections of the pool as they are.
use go_memcache.Base.{
  ℕ, ◌+◌, ◌≡◌, refl, ◌∙◌, if-elim, arith, Bool, List, [], ◌∷◌, Option, if◌then◌else◌, length,
}
use go_memcache.Errors.{Err}
use go_memcache.Types.{RawResponse}
use go_memcache.Transport.{Pool, modify_request, modify_conn, complete, waiting, ended}
use go_memcache.Transport.Connection.{arm_read_deadline}
use go_memcache.Transport.Teardown.{lose, is_empty}
use go_memcache.Transport.Writer.{claim_request, claim_all, start_flush, claim, set_worker}
use go_memcache.Transport.Flush.{
  cut_tail, put_on_wire, trim, Flushed, settle_one, settle_batch, mark_all,
}
use go_memcache.Transport.Reader.{append_response, deliver}
use go_memcache.Transport.Limit.{IsWithin}

-- What leaves the pool's list of connections and its flag alone.
abbrev pub SameList : Pool → Pool → Type 0
SameList p q = (q.conns ≡ p.conns) × (q.closed ≡ p.closed)

pub IsWithin-same :
    {max : ℕ} {b : Bool} {p : Pool} (q : Pool) → SameList p q → IsWithin max b p → IsWithin max b q
IsWithin-same q (e, f) w = record {
  few = rw e w.few;
  shut = f ∙ w.shut;
  none_left = λ k. e ∙ w.none_left k;
}

pub SameList-trans : (p q s : Pool) → SameList p q → SameList q s → SameList p s
SameList-trans p q s (e, f) (g, h) = (g ∙ e, h ∙ f)

pub claim_all-SameList : (c : ℕ) (is : List ℕ) (p : Pool) → SameList p (claim_all c is p).1
unfolding claim_all modify_request
claim_all-SameList c [] p = (refl, refl)
claim_all-SameList c (i ∷ is) p = claim_all-SameList c is (modify_request i (claim_request c) p)

pub start_flush-SameList : (c : ℕ) (batch : List ℕ) (p : Pool) → SameList p (start_flush c batch p)
unfolding start_flush modify_conn arm_read_deadline
start_flush-SameList c batch p = ground arith

pub claim-SameList : (c : ℕ) (p : Pool) → SameList p (claim c p)
unfolding claim modify_conn
claim-SameList c p =
    let m = p.connections c in
    let s = modify_conn c (λ m'. record m' { pending = [] }) p in
    let batch = (claim_all c m.pending s).0 in
    let q = (claim_all c m.pending s).1 in
    let all = claim_all-SameList c m.pending s in
    let over = modify_conn c (set_worker ended) p in
    let idle = modify_conn c (set_worker waiting) q in
    let busy = start_flush c batch q in
    if-elim (SameList p) m.closed over (if is_empty batch then idle else busy) (λ _. (refl, refl))
      (λ _.
        if-elim (SameList p) (is_empty batch) idle busy (λ _. all)
          (λ _. SameList-trans p q busy all (start_flush-SameList c batch q)))

pub trim-SameList :
    (c written begin : ℕ) (batch : List ℕ) (p : Pool) → SameList p (trim c written begin batch p)
unfolding trim cut_tail modify_request modify_conn
trim-SameList c written begin [] p = (refl, refl)
trim-SameList c written begin (i ∷ is) p =
    let end = begin + length (p.requests i).payload in
    ground (arith, trim-SameList c written end is (modify_request i put_on_wire p))

pub mark_all-SameList : (batch : List ℕ) (p : Pool) → SameList p (mark_all batch p)
unfolding mark_all modify_request
mark_all-SameList [] p = (refl, refl)
mark_all-SameList (i ∷ is) p = mark_all-SameList is (modify_request i put_on_wire p)

pub settle_one-SameList :
    (f : Flushed) (begin end i : ℕ) (p : Pool) → SameList p (settle_one f begin end i p).1
unfolding settle_one complete modify_request
settle_one-SameList f begin end i p = ground arith

pub settle_batch-SameList :
    (f : Flushed) (begin : ℕ) (batch : List ℕ) (p : Pool)
    → SameList p (settle_batch f begin batch p).1
unfolding settle_batch
settle_batch-SameList f begin [] p = (refl, refl)
settle_batch-SameList f begin (i ∷ is) p =
    let end = begin + length (p.requests i).payload in
    let q = (settle_one f begin end i p).1 in
    SameList-trans p q (settle_batch f end is q).1 (settle_one-SameList f begin end i p)
      (settle_batch-SameList f end is q)

pub deliver-SameList :
    (now c i : ℕ) (rest : List ℕ) (p : Pool) → SameList p (deliver now c i rest p)
unfolding deliver complete modify_request modify_conn arm_read_deadline
deliver-SameList now c i rest p = ground arith

pub lose-SameList :
    (cause : Option Err) (blamed : Option ℕ) (p : Pool) (i : ℕ) → SameList p (lose cause blamed p i)
unfolding lose complete modify_request
lose-SameList cause blamed p i = ground arith

pub complete-SameList :
    (i : ℕ) (rs : List RawResponse) (written : ℕ) (e : Option Err) (p : Pool)
    → SameList p (complete i rs written e p)
unfolding complete modify_request
complete-SameList i rs written e p = (refl, refl)

pub append-SameList :
    (i : ℕ) (x : RawResponse) (p : Pool) → SameList p (modify_request i (append_response x) p)
unfolding modify_request
append-SameList i x p = (refl, refl)

pub hand_over_part-SameList :
    (now c i : ℕ) (rest : List ℕ) (x : RawResponse) (p : Pool)
    → SameList p (deliver now c i rest (modify_request i (append_response x) p))
unfolding modify_request
hand_over_part-SameList now c i rest x p =
    deliver-SameList now c i rest (modify_request i (append_response x) p)
