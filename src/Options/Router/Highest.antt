-- ===== src/Options/Router/Highest.antt =====
-- `RendezvousRouter.Pick` of options.go and the weights of the servers.
use mathlib.Core.List.{append-nil, append_assoc}
use go_memcache.Base.{
  ℕ, zero, suc, ◌+◌, ◌≤◌, ◌<◌, ◌≡◌, refl, arith, List, [], ◌∷◌, ◌++◌, Bytes, ltb, ◌==◌,
  if◌then◌else◌, length, Bool-cases, inl, inr, false, length-append, lt→ltb,
}
use go_memcache.Options.Router.{weight, pick_from, rendezvous_pick}

-- The weight of the server at an index.
abbrev pub weight_at : Bytes → List Bytes → ℕ → ℕ
weight_at key [] i = 0
weight_at key (s ∷ servers) zero = weight key s
weight_at key (s ∷ servers) (suc i) = weight_at key servers i

-- Index `b` holds the first of the highest weights.
pub record IsFirstHighest (key : Bytes) (servers : List Bytes) (b : ℕ) : Type 0 where
  pub in_range : b < length servers
  pub highest : (j : ℕ) → j < length servers → weight_at key servers j ≤ weight_at key servers b
  pub first : (j : ℕ) → j < b → weight_at key servers j < weight_at key servers b

weight_at-append-left :
    (key : Bytes) (xs ys : List Bytes) (i : ℕ)
    → i < length xs
    → weight_at key (xs ++ ys) i ≡ weight_at key xs i
weight_at-append-left key [] ys i h = elim h [ ]
weight_at-append-left key (x ∷ xs) ys zero h = refl
weight_at-append-left key (x ∷ xs) ys (suc i) h = weight_at-append-left key xs ys i (omega arith)

weight_at-append-here :
    (key : Bytes) (xs ys : List Bytes) (y : Bytes)
    → weight_at key (xs ++ y ∷ ys) (length xs) ≡ weight key y
weight_at-append-here key [] ys y = refl
weight_at-append-here key (x ∷ xs) ys y = weight_at-append-here key xs ys y

module _ (key : Bytes) (seen : List Bytes) (s : Bytes) (b : ℕ) (h : IsFirstHighest key seen b) where
  -- One more server of a higher weight is the new pick.
  IsFirstHighest-new :
      weight_at key seen b < weight key s → IsFirstHighest key (seen ++ s ∷ []) (length seen)
  IsFirstHighest-new lt = record {
    in_range = omega (arith, length-append seen (s ∷ []));
    highest = λ j jh. ground (
      arith,
      weight_at-append-left key seen (s ∷ []) j,
      weight_at-append-here key seen [] s,
      h.highest j,
      length-append seen (s ∷ []),
    );
    first = λ j jh. ground (
      arith,
      weight_at-append-left key seen (s ∷ []) j,
      weight_at-append-here key seen [] s,
      h.highest j,
    );
  }

  IsFirstHighest-old : weight key s ≤ weight_at key seen b → IsFirstHighest key (seen ++ s ∷ []) b
  IsFirstHighest-old le = record {
    in_range = omega (arith, length-append seen (s ∷ []), h.in_range);
    highest = λ j jh. ground (
      arith,
      weight_at-append-left key seen (s ∷ []) j,
      weight_at-append-left key seen (s ∷ []) b h.in_range,
      weight_at-append-here key seen [] s,
      h.highest j,
      h.in_range,
      length-append seen (s ∷ []),
    );
    first = λ j jh. ground (
      arith,
      weight_at-append-left key seen (s ∷ []) j,
      weight_at-append-left key seen (s ∷ []) b h.in_range,
      h.first j,
      h.in_range,
    );
  }

pick_from-better :
    (key s : Bytes) (rest : List Bytes) (i b w : ℕ)
    → w < weight key s
    → pick_from key i b w (s ∷ rest) ≡ pick_from key (i + 1) i (weight key s) rest
unfolding pick_from
pick_from-better key s rest i b w h = elim (Bool-cases (i == 0)) [
  | inl e ↦ rw e
  | inr e ↦ rw (e, lt→ltb w (weight key s) h)
]

pick_from-worse :
    (key s : Bytes) (rest : List Bytes) (i b w : ℕ)
    → 0 < i
    → weight key s ≤ w
    → pick_from key i b w (s ∷ rest) ≡ pick_from key (i + 1) b w rest
unfolding pick_from
pick_from-worse key s rest i b w pos h =
    let nonzero : (i == 0) ≡ false = ground arith in
    let worse : ltb w (weight key s) ≡ false = ground arith in rw (nonzero, worse)

-- The loop from the index behind the servers seen.
pick_from-IsFirstHighest :
    (key : Bytes) (rest seen : List Bytes) (i b w : ℕ)
    → i ≡ length seen
    → w ≡ weight_at key seen b
    → IsFirstHighest key seen b
    → IsFirstHighest key (seen ++ rest) (pick_from key i b w rest)
unfolding pick_from
pick_from-IsFirstHighest key [] seen i b w ei ew h = rw append-nil h
pick_from-IsFirstHighest key (s ∷ rest) seen i b w ei ew h =
    rw (← append_assoc seen (s ∷ []) rest) (elim (Bool-cases (ltb w (weight key s))) [
      | inl e ↦
          let lt : w < weight key s = ground arith in
          rw (pick_from-better key s rest i b w lt) (
            pick_from-IsFirstHighest key rest (seen ++ s ∷ []) (i + 1) i (weight key s)
              (omega (arith, length-append seen (s ∷ [])))
              (rw (ei, weight_at-append-here key seen [] s))
              (rw ei (IsFirstHighest-new key seen s b h (omega arith))))
      | inr e ↦
          let le : weight key s ≤ w = ground arith in
          rw (pick_from-worse key s rest i b w (omega (arith, h.in_range)) le) (
            pick_from-IsFirstHighest key rest (seen ++ s ∷ []) (i + 1) b w
              (omega (arith, length-append seen (s ∷ [])))
              (rw (weight_at-append-left key seen (s ∷ []) b h.in_range) ew)
              (IsFirstHighest-old key seen s b h (omega arith)))
    ])

pick_from-first :
    (key : Bytes) (s : Bytes) (rest : List Bytes)
    → pick_from key 0 0 0 (s ∷ rest) ≡ pick_from key 1 0 (weight key s) rest
unfolding pick_from
pick_from-first key s rest = refl

-- For a client with at least one server the router returns the index of a server; that server has
-- the highest weight for the key, and any server in front of it has a lower one.
pub rendezvous_pick-IsFirstHighest :
    (key s : Bytes) (rest : List Bytes)
    → IsFirstHighest key (s ∷ rest) (rendezvous_pick key (s ∷ rest))
unfolding rendezvous_pick
rendezvous_pick-IsFirstHighest key s rest = rw pick_from-first (
    pick_from-IsFirstHighest key rest (s ∷ []) 1 0 (weight key s) refl refl (record {
      in_range = omega arith;
      highest = λ j h. ground arith;
      first = λ j h. omega arith;
    }))

IsFirstHighest-unique :
    {key : Bytes} {servers : List Bytes} {a b : ℕ}
    → IsFirstHighest key servers a
    → IsFirstHighest key servers b
    → a ≡ b
IsFirstHighest-unique {a = a} {b = b} h k =
    grind (arith, h.highest b, k.highest a, h.first b, k.first a, h.in_range, k.in_range)

IsFirstHighest-next :
    (key : Bytes) (seen : List Bytes) (s : Bytes) (b : ℕ)
    → IsFirstHighest key seen b
    → IsFirstHighest key
        (seen ++ s ∷ [])
        (if ltb (weight_at key seen b) (weight key s) then length seen else b)
IsFirstHighest-next key seen s b h = elim (Bool-cases (ltb (weight_at key seen b) (weight key s))) [
  | inl e ↦ rw e (IsFirstHighest-new key seen s b h (ground arith))
  | inr e ↦ rw e (IsFirstHighest-old key seen s b h (ground arith))
]

-- A server that is added behind the others takes only keys to itself, and only those for which it
-- weighs more than the server that had the key: the other keys stay where they were.
pub rendezvous_pick-append :
    (key s t : Bytes) (rest : List Bytes)
    → rendezvous_pick key ((s ∷ rest) ++ t ∷ []) ≡ (
        if ltb (weight_at key (s ∷ rest) (rendezvous_pick key (s ∷ rest))) (weight key t)
        then length (s ∷ rest)
        else rendezvous_pick key (s ∷ rest))
rendezvous_pick-append key s t rest =
    IsFirstHighest-unique (rendezvous_pick-IsFirstHighest key s (rest ++ t ∷ [])) (
      IsFirstHighest-next key (s ∷ rest) t (rendezvous_pick key (s ∷ rest))
        (rendezvous_pick-IsFirstHighest key s rest))
