-- ===== src/Transport/Race.antt =====
-- An interleaving of the goroutines of transport.go that `flush` does not expect: an answer that
-- comes before its request is written.
use go_memcache.Base.{
  ℕ, ◌+◌, ◌≤◌, ◌<◌, ◌≡◌, refl, ap, ◌∙◌, arith, false, ◌||◌, List, [], ◌∷◌, ◌++◌, length,
  length-append, ltb, lt→ltb, Bool-cases, inl, inr, ◌==◌,
}
use go_memcache.Transport.{Pool, modify_request, modify_conn}
use go_memcache.Transport.Flush.{flush_buffer, put_on_wire, cut_tail, trim, mark_all}

not-ltb : (a b : ℕ) → b ≤ a → ltb a b ≡ false
not-ltb a b h = ground arith

mark-payload :
    (k : ℕ) (p : Pool) (j : ℕ)
    → ((modify_request k put_on_wire p).requests j).payload ≡ (p.requests j).payload
unfolding modify_request put_on_wire
mark-payload k p j = elim (Bool-cases (k == j)) [
  | inl same ↦ let e : k ≡ j = ground arith in rw same (ap (λ n. (p.requests n).payload) e)
  | inr other ↦ rw other refl
]

flush_buffer-mark :
    (k : ℕ) (is : List ℕ) (p : Pool)
    → flush_buffer (modify_request k put_on_wire p).requests is ≡ flush_buffer p.requests is
unfolding flush_buffer
flush_buffer-mark k [] p = refl
flush_buffer-mark k (j ∷ is) p = rw (mark-payload k p j, flush_buffer-mark k is p) refl

trim_lem :
    (c written start : ℕ) (pre : List ℕ) (i : ℕ) (post : List ℕ) (p : Pool)
    → start + length (flush_buffer p.requests pre) ≤ written
    → written < start + length (flush_buffer p.requests pre) + length (p.requests i).payload
    → trim c written start (pre ++ i ∷ post) p ≡ cut_tail c (length (i ∷ post)) (mark_all pre p)
unfolding trim mark_all flush_buffer
trim_lem c written start [] i post p h k =
    let short = lt→ltb written (start + length (p.requests i).payload) (omega (arith, h, k)) in
    rw short refl
trim_lem c written start (j ∷ pre) i post p h k =
    let q = modify_request j put_on_wire p in
    let end = start + length (p.requests j).payload in
    let both = length-append (p.requests j).payload (flush_buffer p.requests pre) in
    let same = ap length (flush_buffer-mark j pre p) in
    let whole : ltb written end ≡ false = not-ltb written end (omega (arith, h, both)) in
    let later =
      trim_lem c written end pre i post q (omega (arith, h, both, same))
        (omega (arith, k, both, same, ap length (mark-payload j p i))) in
    rw whole later

mark_all-others :
    (is : List ℕ) (p : Pool)
    → ((mark_all is p).connections ≡ p.connections) × ((mark_all is p).panicked ≡ p.panicked)
unfolding mark_all modify_request
mark_all-others [] p = (refl, refl)
mark_all-others (i ∷ is) p = mark_all-others is (modify_request i put_on_wire p)

cut_tail-panicked :
    (c k : ℕ) (p : Pool)
    → (cut_tail c k p).panicked ≡ (p.panicked || ltb (length (p.connections c).inflight) k)
unfolding cut_tail modify_conn
cut_tail-panicked c k p = ground arith

-- When a write of an open connection has failed, and `i` is the first request of its batch that did
-- not go out whole, taking the tail from `i` on out of flight panics exactly when fewer requests are
-- in flight than that tail has, as after an answer that came before its request was written, or when
-- the process had panicked before.
pub trim-panicked :
    (c written : ℕ) (pre : List ℕ) (i : ℕ) (post : List ℕ) (p : Pool)
    → length (flush_buffer p.requests pre) ≤ written
    → written < length (flush_buffer p.requests pre) + length (p.requests i).payload
    → (trim c written 0 (pre ++ i ∷ post) p).panicked
      ≡ (p.panicked || ltb (length (p.connections c).inflight) (length (i ∷ post)))
trim-panicked c written pre i post p h k =
    let (same, calm) = mark_all-others pre p in
    ap (λ (q : Pool). q.panicked)
      (trim_lem c written 0 pre i post p (omega (arith, h)) (omega (arith, k)))
    ∙ rw (cut_tail-panicked c (length (i ∷ post)) (mark_all pre p)) (rw (same, calm) refl)
