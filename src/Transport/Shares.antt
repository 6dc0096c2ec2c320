-- ===== src/Transport/Shares.antt =====
-- Which bytes of a failed write of transport.go count for which request.
use go_memcache.Base.{
  ℕ, ◌+◌, ◌-◌, ◌≤◌, ◌<◌, ◌≡◌, ◌≢◌, refl, ap, if-elim, sym, ◌∙◌, arith, Bool, true, false, ◌&&◌,
  Bool-cases, inl, inr, List, [], ◌∷◌, ◌++◌, any, All, ltb, leb, ◌==◌, if◌then◌else◌, length,
  length-append,
}
use mathlib.Core.Path.{subst}
use go_memcache.Transport.{Request, Pool, update_self, modify_request, complete, complete_request}
use go_memcache.Transport.Flush.{
  flush_buffer, is_writing, unclaim, Flushed, settle_one, settle_batch,
}
use go_memcache.Transport.InOrder.{IsDistinct}

abbrev pub holds : ℕ → List ℕ → Bool
holds j = any (λ i. i == j)

-- What a failed write makes of a request whose bytes begin at `start` in the buffer. `again` says
-- that it is written again: then none of its bytes went out. Otherwise all of them went out, and it
-- waits for its answer; or it is settled with the error and the number of its bytes that went out.
pub data Share (f : Flushed) (start : ℕ) (r s : Request) (again : Bool) : Type 0 where
  whole : start + length r.payload ≤ f.written → s ≡ r → again ≡ false → Share f start r s again
  broken :
      f.written < start + length r.payload
      → s ≡ complete_request [] (f.written - start) f.err r
      → again ≡ false
      → Share f start r s again
  unsent :
      f.written < start + length r.payload
      → f.written ≤ start
      → s ≡ unclaim r
      → again ≡ true
      → Share f start r s again

Share-cong :
    (f : Flushed) {n n' : ℕ} {r r' s s' : Request} {b b' : Bool}
    → n ≡ n'
    → r ≡ r'
    → s ≡ s'
    → b ≡ b'
    → Share f n r s b
    → Share f n' r' s' b'
Share-cong f {n' = n'} {r = r} {s = s} {s' = s'} {b = b} {b' = b'} e g h k w =
    subst (λ x. Share f n' x s' b') g
      (subst (λ x. Share f n' r x b') h
        (subst (λ x. Share f n' r s x) k (subst (λ x. Share f x r s b) e w)))

holds-if_self :
    (b : Bool) (i : ℕ) (l : List ℕ) → holds i l ≡ false → holds i (if b then i ∷ l else l) ≡ b
holds-if_self true i l h = ground arith
holds-if_self false i l h = h

holds-if_other :
    (b : Bool) (k i : ℕ) (l : List ℕ) → k ≢ i → holds i (if b then k ∷ l else l) ≡ holds i l
holds-if_other true k i l h = let other : k == i ≡ false = ground arith in rw other refl
holds-if_other false k i l h = refl

All-middle {κ} :
    (P : ℕ → Type κ) (pre : List ℕ) (i : ℕ) (post : List ℕ)
    → All P (pre ++ i ∷ post)
    → All P pre × P i
All-middle P [] i post (h, later) = (tt, h)
All-middle P (k ∷ pre) i post (h, later) =
    let (before, here) = All-middle P pre i post later in ((h, before), here)

not_before : (a b : ℕ) → ltb a b ≡ false → b ≤ a
not_before a b h = ground arith

module _ (f : Flushed) (up : f.closed ≡ false) where
  settle_one-Share :
      (start i : ℕ) (p : Pool)
      → let end : ℕ = start + length (p.requests i).payload in
        Share f start
          (p.requests i)
          ((settle_one f start end i p).1.requests i)
          (settle_one f start end i p).0
  unfolding settle_one complete modify_request
  settle_one-Share start i p =
      let r = p.requests i in
      let end = start + length r.payload in
      let unsent_start = not_before start f.written in
      elim (Bool-cases (leb end f.written)) [
        | inl all ↦ rw all (whole (ground arith) (rw up refl) refl)
        | inr more ↦ rw more (elim (Bool-cases (ltb start f.written)) [
          | inl part ↦ rw part (broken (ground arith) (ground arith) refl)
          | inr none_sent ↦ rw none_sent (elim (Bool-cases (f.served && is_writing r.state)) [
            | inl again ↦ rw again (unsent (ground arith) (ground arith) (ground arith) refl)
            | inr failed ↦ rw failed (
                broken (ground arith)
                  (update_self p.requests i (complete_request [] 0 f.err r)
                    ∙ ap (λ n. complete_request [] n f.err r) (omega (arith, unsent_start)))
                  refl)
          ])
        ])
      ]

  settle_one-other :
      (start end i : ℕ) (p : Pool) (j : ℕ)
      → i ≢ j
      → (settle_one f start end i p).1.requests j ≡ p.requests j
  unfolding settle_one complete modify_request
  settle_one-other start end i p j h = ground arith

  flush_buffer-same :
      (start end i : ℕ) (is : List ℕ) (p : Pool)
      → All (λ k. i ≢ k) is
      → flush_buffer (settle_one f start end i p).1.requests is ≡ flush_buffer p.requests is
  unfolding flush_buffer
  flush_buffer-same start end i [] p h = refl
  flush_buffer-same start end i (k ∷ is) p (e, h) =
      rw (settle_one-other start end i p k e, flush_buffer-same start end i is p h) refl

  settle_batch-absent :
      (start : ℕ) (batch : List ℕ) (p : Pool) (j : ℕ)
      → All (λ k. j ≢ k) batch
      → ((settle_batch f start batch p).1.requests j ≡ p.requests j)
        × (holds j (settle_batch f start batch p).0 ≡ false)
  unfolding settle_batch
  settle_batch-absent start [] p j h = (refl, refl)
  settle_batch-absent start (i ∷ is) p j (e, h) =
      let end = start + length (p.requests i).payload in
      let q = (settle_one f start end i p).1 in
      let (kept, absent) = settle_batch-absent end is q j h in
      let other : i == j ≡ false = ground arith in
      (
        kept ∙ settle_one-other start end i p j (λ k. e (sym k)),
        if-elim (λ l. holds j l ≡ false) (settle_one f start end i p).0
            (i ∷ (settle_batch f end is q).0) (settle_batch f end is q).0
            (λ _. rw (other, absent) refl) (λ _. absent),
      )

  settle_batch-Share_from :
      (start : ℕ) (pre : List ℕ) (i : ℕ) (post : List ℕ) (p : Pool)
      → IsDistinct (pre ++ i ∷ post)
      → Share f
          (start + length (flush_buffer p.requests pre))
          (p.requests i)
          ((settle_batch f start (pre ++ i ∷ post) p).1.requests i)
          (holds i (settle_batch f start (pre ++ i ∷ post) p).0)
  unfolding settle_batch flush_buffer
  settle_batch-Share_from start [] i post p (new, d) =
      let end = start + length (p.requests i).payload in
      let q = (settle_one f start end i p).1 in
      let (kept, absent) = settle_batch-absent end post q i new in
      Share-cong f (omega arith) refl (sym kept)
        (sym (holds-if_self (settle_one f start end i p).0 i (settle_batch f end post q).0 absent))
        (settle_one-Share start i p)
  settle_batch-Share_from start (k ∷ pre) i post p (new, d) =
      let end = start + length (p.requests k).payload in
      let q = (settle_one f start end k p).1 in
      let (before, differs) = All-middle (λ j. k ≢ j) pre i post new in
      let same = ap length (flush_buffer-same start end k pre p before) in
      Share-cong f
        (omega (arith, same, length-append (p.requests k).payload (flush_buffer p.requests pre)))
        (settle_one-other start end k p i differs) refl
        (sym (
          holds-if_other (settle_one f start end k p).0 k i
            (settle_batch f end (pre ++ i ∷ post) q).0 differs))
        (settle_batch-Share_from end pre i post q d)

-- After a write that failed on a connection that was open, with a batch of pairwise different
-- requests, each request has its own share of the bytes: if all its bytes went out it is left to
-- wait for its answer; if not, it is settled with the error of the write and exactly the number of
-- its bytes that went out, unless it is done already; or it is queued once more, and then none of
-- its bytes went out. It is among those that are written again only in the last case.
pub settle_batch-Share :
    (f : Flushed) (pre : List ℕ) (i : ℕ) (post : List ℕ) (p : Pool)
    → f.closed ≡ false
    → IsDistinct (pre ++ i ∷ post)
    → Share f
        (length (flush_buffer p.requests pre))
        (p.requests i)
        ((settle_batch f 0 (pre ++ i ∷ post) p).1.requests i)
        (holds i (settle_batch f 0 (pre ++ i ∷ post) p).0)
settle_batch-Share f pre i post p up d =
    subst
      (λ n.
        Share f n (p.requests i) ((settle_batch f 0 (pre ++ i ∷ post) p).1.requests i)
          (holds i (settle_batch f 0 (pre ++ i ∷ post) p).0))
      (omega arith) (settle_batch-Share_from f up 0 pre i post p d)
