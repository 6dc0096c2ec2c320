-- ===== src/Transport/Limit.antt =====
-- How many connections the pool of transport.go holds.
pub mod Same
pub mod Steps
use mathlib.Core.List.{foldl}
use mathlib.Core.Path.{subst}
use go_memcache.Base.{
  ℕ, suc, ◌+◌, ◌≤◌, ◌<◌, ◌≡◌, refl, ap, sym, ◌∙◌, if-elim, arith, Bool, true, false, not, ◌&&◌,
  Bool-cases, inl, inr, List, [], ◌∷◌, ◌++◌, Option, none, some, if◌then◌else◌, length, ltb,
  length-append,
}
use go_memcache.Errors.{Err, closed}
use go_memcache.Options.{Config}
use go_memcache.Transport.{
  MuxConn, Pool, modify_request, modify_conn, is_queued, complete, foldl_inv,
}
use go_memcache.Transport.Connection.{add, new_conn, arm_read_deadline}
use go_memcache.Transport.Pick.{
  Scan, better, is_idle, visit, scan, choose_conn, pick_locked, pick_and_add, rehome, forget,
  forget_option, detach,
}
use go_memcache.Transport.Teardown.{lose, fail, expire, orphan, drain, close}

-- The pool is closed or open as `b` says, it has at most so many connections, and none once closed.
pub record IsWithin (max : ℕ) (b : Bool) (p : Pool) : Type 0 where
  pub few : length p.conns ≤ max
  pub shut : p.closed ≡ b
  pub none_left : b ≡ true → p.conns ≡ []

-- The loop of `pickLocked` after `n` connections.
record IsScan (n : ℕ) (b : Bool) (s : Scan) : Type 0 where
  fits : length s.kept ≤ n
  found : s.best ≡ none → s.kept ≡ []
  shut : s.pool.closed ≡ b

visit-IsScan :
    (cfg : Config) (now n : ℕ) (b : Bool) (s : Scan) (c : ℕ)
    → IsScan n b s
    → IsScan (suc n) b (visit cfg now s c)
unfolding visit modify_conn better
visit-IsScan cfg now n b s c w = elim (Bool-cases (s.pool.connections c).closed) [
  | inl gone ↦ rw gone (record { fits = omega (arith, w.fits); found = w.found; shut = w.shut })
  | inr live ↦ rw live (elim (Bool-cases (is_idle cfg now (s.pool.connections c))) [
    | inl idle ↦ rw idle (record { fits = omega (arith, w.fits); found = w.found; shut = w.shut })
    | inr busy ↦ rw busy (record {
      fits = omega (arith, w.fits, length-append s.kept (c ∷ []));
      found = λ h. ground arith;
      shut = w.shut;
    })
  ])
]

scan-IsScan :
    (cfg : Config) (now n : ℕ) (b : Bool) (s : Scan) (cs : List ℕ)
    → IsScan n b s
    → IsScan (n + length cs) b (foldl (visit cfg now) s cs)
scan-IsScan cfg now n b s [] w = record {
  fits = omega (arith, w.fits);
  found = w.found;
  shut = w.shut;
}
scan-IsScan cfg now n b s (c ∷ cs) w =
    let last =
      scan-IsScan cfg now (suc n) b (visit cfg now s c) cs (visit-IsScan cfg now n b s c w) in
    record { fits = omega (arith, last.fits); found = last.found; shut = last.shut }

new_conn-IsWithin :
    (cfg : Config) (now : ℕ) (p : Pool)
    → length p.conns < cfg.max_conns
    → IsWithin cfg.max_conns false p
    → IsWithin cfg.max_conns false (new_conn now p)
unfolding new_conn
new_conn-IsWithin cfg now p h w = record {
  few = omega (arith, length-append p.conns (p.next_conn ∷ []));
  shut = w.shut;
  none_left = λ k. cc;
}

choose_conn-IsWithin :
    (cfg : Config) (now : ℕ) (best : Option (ℕ × ℕ)) (p : Pool)
    → 1 ≤ cfg.max_conns
    → (best ≡ none → p.conns ≡ [])
    → IsWithin cfg.max_conns false p
    → IsWithin cfg.max_conns false (choose_conn cfg now best p).1
unfolding choose_conn
choose_conn-IsWithin cfg now none p pos h w =
    new_conn-IsWithin cfg now p (omega (arith, ap length (h refl))) w
choose_conn-IsWithin cfg now (some (c, size)) p pos h w =
    elim (Bool-cases (ltb 0 size && ltb (length p.conns) cfg.max_conns)) [
      | inl more ↦ rw more (new_conn-IsWithin cfg now p (ground arith) w)
      | inr enough ↦ rw enough w
    ]

pub pick_and_add-IsWithin :
    (cfg : Config) (now i : ℕ) (p : Pool)
    → 1 ≤ cfg.max_conns
    → IsWithin cfg.max_conns false p
    → IsWithin cfg.max_conns false (pick_and_add cfg now i p)
unfolding pick_and_add pick_locked scan add modify_conn
pick_and_add-IsWithin cfg now i p pos w =
    let s = scan cfg now p in
    let all =
      scan-IsScan cfg now 0 false (record { kept = []; best = none; pool = p }) p.conns
        (record { fits = omega arith; found = λ h. refl; shut = w.shut }) in
    let q = record s.pool { conns = s.kept } in
    let before : IsWithin cfg.max_conns false q = record {
      few = omega (arith, all.fits, w.few);
      shut = all.shut;
      none_left = λ k. cc;
    } in
    let last = choose_conn-IsWithin cfg now s.best q pos all.found before in
    record { few = last.few; shut = last.shut; none_left = last.none_left }

rehome-IsWithin :
    (cfg : Config) (now : ℕ) (requeue b : Bool) (e : Option Err) (p : Pool) (i : ℕ)
    → 1 ≤ cfg.max_conns
    → (requeue ≡ true → b ≡ false)
    → IsWithin cfg.max_conns b p
    → IsWithin cfg.max_conns b (rehome cfg now requeue e p i)
unfolding rehome complete modify_request
rehome-IsWithin cfg now requeue b e p i pos h w =
    let P = IsWithin cfg.max_conns b in
    let added = pick_and_add cfg now i p in
    let failed = complete i [] 0 e p in
    if-elim P (not (is_queued (p.requests i).state)) p (if requeue then added else failed) (λ _. w)
      (λ _.
        if-elim P requeue added failed
          (λ k.
            subst (λ x. IsWithin cfg.max_conns x added) (sym (h k))
              (pick_and_add-IsWithin cfg now i p pos
                (subst (λ x. IsWithin cfg.max_conns x p) (h k) w)))
          (λ _. record { few = w.few; shut = w.shut; none_left = w.none_left }))

length-forget : (c : ℕ) (ds : List ℕ) → length (forget c ds) ≤ length ds
unfolding forget
length-forget c [] = omega arith
length-forget c (d ∷ ds) = ground (arith, length-forget c ds)

length-forget_option : (c : Option ℕ) (ds : List ℕ) → length (forget_option c ds) ≤ length ds
unfolding forget_option
length-forget_option none ds = omega arith
length-forget_option (some c) ds = length-forget c ds

forget_option-nil : (c : Option ℕ) → forget_option c [] ≡ []
unfolding forget_option forget
forget_option-nil none = refl
forget_option-nil (some c) = refl

pub detach-IsWithin :
    (cfg : Config) (now : ℕ) (b : Bool) (c : Option ℕ) (pending : List ℕ) (e : Option Err)
    (requeue : Bool) (p : Pool)
    → 1 ≤ cfg.max_conns
    → IsWithin cfg.max_conns b p
    → IsWithin cfg.max_conns b (detach cfg now c pending e requeue p)
unfolding detach
detach-IsWithin cfg now b c pending e requeue p pos w =
    let P = IsWithin cfg.max_conns b in
    let q = record p { conns = forget_option c p.conns } in
    let before : P q = record {
      few = omega (arith, w.few, length-forget_option c p.conns);
      shut = w.shut;
      none_left = λ k. rw (w.none_left k) (forget_option-nil c);
    } in
    let refuse = rehome cfg now false (some closed) in
    let move = rehome cfg now requeue e in
    if-elim P p.closed (foldl refuse q pending) (foldl move q pending)
      (λ _.
        foldl_inv P refuse q pending
          (λ s i. rehome-IsWithin cfg now false b (some closed) s i pos (λ k. cc)) before)
      (λ is_open.
        foldl_inv P move q pending
          (λ s i. rehome-IsWithin cfg now requeue b e s i pos (λ _. sym w.shut ∙ is_open)) before)
