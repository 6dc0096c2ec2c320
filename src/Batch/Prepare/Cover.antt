-- ===== src/Batch/Prepare/Cover.antt =====
-- The groups of a plan hold every operation of the batch.
use go_memcache.Base.{
  ℕ, zero, suc, ◌+◌, ◌<◌, ◌≤◌, ◌==◌, ◌≡◌, refl, ◌∙◌, ap, arith, Bool, true, false, ◌||◌, Bool-cases,
  ◌⊎◌, inl, inr, List, [], ◌∷◌, ◌++◌, length, any, replicate,
}
use go_memcache.Errors.{ok, bind-eq-ok, refuse-eq-ok, ok-elim, plain, batch_too_large, batch_opaque}
use go_memcache.Client.{Client, server}
use go_memcache.Batch.{Submitted, Prepared, operation_key, prepare, quiet_command}
use go_memcache.Wire.{marshal}
use go_memcache.Batch.Prepare.{
  Group, at_operation, normalize, prepare_one, add_item, group_from, frame_items, order_groups,
  plan_batch,
}

-- An item of a list has the number, or an item of one of the lists.
abbrev pub has_index : ℕ → List Prepared → Bool
has_index i = any (λ p. p.index == i)

abbrev pub has_item : ℕ → List Group → Bool
has_item i = any (λ g. has_index i g.items)

any-append :
    (i : ℕ) (ps qs : List Prepared) → has_index i (ps ++ qs) ≡ (has_index i ps || has_index i qs)
any-append i [] qs = refl
any-append i (p ∷ ps) qs = ground (arith, any-append i ps qs)

length-add_item :
    (pool : ℕ) (p : Prepared) (gs : List (List Prepared)) → length (add_item pool p gs) ≡ length gs
unfolding add_item
length-add_item zero p [] = refl
length-add_item (suc pool) p [] = refl
length-add_item zero p (g ∷ gs) = refl
length-add_item (suc pool) p (g ∷ gs) = ap suc (length-add_item pool p gs)

-- What `add_item` keeps, and what it adds.
add_item-keeps :
    (pool i : ℕ) (p : Prepared) (gs : List (List Prepared))
    → any (has_index i) gs ≡ true
    → any (has_index i) (add_item pool p gs) ≡ true
unfolding add_item
add_item-keeps zero i p [] h = h
add_item-keeps (suc pool) i p [] h = h
add_item-keeps zero i p (g ∷ gs) h = ground (arith, any-append i g (p ∷ []))
add_item-keeps (suc pool) i p (g ∷ gs) h = elim (Bool-cases (has_index i g)) [
  | inl e ↦ rw e refl
  | inr e ↦ rw e (add_item-keeps pool i p gs (rw e at h))
]

add_item-adds :
    (pool i : ℕ) (p : Prepared) (gs : List (List Prepared))
    → pool < length gs
    → p.index ≡ i
    → any (has_index i) (add_item pool p gs) ≡ true
unfolding add_item
add_item-adds pool i p [] h e = absurd (omega (arith, h))
add_item-adds zero i p (g ∷ gs) h e =
    let same_index : p.index == i ≡ true = ground arith in ground (arith, any-append i g (p ∷ []))
add_item-adds (suc pool) i p (g ∷ gs) h e =
    let later = add_item-adds pool i p gs (omega (arith, h)) e in
    elim (Bool-cases (has_index i g)) [ inl k ↦ rw k refl | inr k ↦ rw k later ]

-- The number and the server that `prepare_one` gives.
prepare_one-ok :
    (c : Client) (index : ℕ) (s : Submitted) {p : Prepared} {pool : ℕ}
    → prepare_one c index s ≡ ok (p, pool)
    → (p.index ≡ index) × (server c (operation_key p.operation) ≡ ok pool)
unfolding prepare_one
prepare_one-ok c index s {p} {pool} h =
    let (op, _, h1) = bind-eq-ok (normalize s) _ h in
    let (command, _, h2) = bind-eq-ok (at_operation (prepare op)) _ h1 in
    let (_, h3) = refuse-eq-ok _ (plain batch_too_large) _ h2 in
    let (_, h4) = refuse-eq-ok _ (plain batch_opaque) _ h3 in
    let (pool', found, h5) = bind-eq-ok (server c (operation_key op)) _ h4 in
    ok-elim
      (λ (x : Prepared × ℕ).
        (x.0.index ≡ index) × (server c (operation_key x.0.operation) ≡ ok x.1))
      h5 (refl, found)

-- Every key has a server of the client's own.
module _ (c : Client) (n : ℕ) (own : (key : List ℕ) (i : ℕ) → server c key ≡ ok i → i < n) where
  group_from-has :
      (index : ℕ) (ss : List Submitted) (gs : List (List Prepared)) {gs' : List (List Prepared)}
      (i : ℕ)
      → group_from c index ss gs ≡ ok gs'
      → length gs ≡ n
      → (any (has_index i) gs ≡ true) ⊎ ((index ≤ i) × (i < index + length ss))
      → any (has_index i) gs' ≡ true
  unfolding group_from
  group_from-has index [] gs {gs'} i h k (inl w) = ok-elim (λ x. any (has_index i) x ≡ true) h w
  group_from-has index [] gs i h k (inr (a, b)) = absurd (omega (arith, a, b))
  group_from-has index (s ∷ ss) gs i h k w =
      let ((p, pool), made, h1) = bind-eq-ok (prepare_one c index s) _ h in
      let (same_index, routed) = prepare_one-ok c index s made in
      let inside = own (operation_key p.operation) pool routed in
      group_from-has (index + 1) ss (add_item pool p gs) i h1 (length-add_item pool p gs ∙ k)
        (go p pool same_index (omega (arith, inside, k)) w)
    where
      go :
          (p : Prepared) (pool : ℕ)
          → p.index ≡ index
          → pool < length gs
          → (any (has_index i) gs ≡ true) ⊎ ((index ≤ i) × (i < index + length (s ∷ ss)))
          → (any (has_index i) (add_item pool p gs) ≡ true)
            ⊎ ((index + 1 ≤ i) × (i < index + 1 + length ss))
      go p pool e l (inl w') = inl (add_item-keeps pool i p gs w')
      go p pool e l (inr (a, b)) = elim (Bool-cases (index == i)) [
        | inl here ↦ inl (add_item-adds pool i p gs l (e ∙ ground arith))
        | inr other ↦ inr (ground (arith, a), omega (arith, b))
      ]

frame_items-has :
    (start : ℕ) (ps : List Prepared) {items : List Prepared} {payload : List ℕ} (i : ℕ)
    → frame_items start ps ≡ ok (items, payload)
    → has_index i items ≡ has_index i ps
unfolding frame_items
frame_items-has start [] i h =
    ok-elim (λ (x : List Prepared × List ℕ). has_index i x.0 ≡ false) h refl
frame_items-has start (p ∷ ps) i h =
    let (wire, _, h1) = bind-eq-ok (at_operation (marshal (quiet_command p))) _ h in
    let ((items, rest), framed, h2) = bind-eq-ok (frame_items (start + length wire) ps) _ h1 in
    ok-elim (λ (x : List Prepared × List ℕ). has_index i x.0 ≡ has_index i (p ∷ ps)) h2
      (ap (λ b. p.index == i || b) (frame_items-has (start + length wire) ps i framed))

order_groups-has :
    (pool : ℕ) (gs : List (List Prepared)) {groups : List Group} (i : ℕ)
    → order_groups pool gs ≡ ok groups
    → has_item i groups ≡ any (has_index i) gs
unfolding order_groups
order_groups-has pool [] i h = ok-elim (λ gs. has_item i gs ≡ false) h refl
order_groups-has pool ([] ∷ gs) i h = order_groups-has (pool + 1) gs i h
order_groups-has pool ((p ∷ ps) ∷ gs) i h =
    let ((items, payload), framed, h1) = bind-eq-ok (frame_items 0 (p ∷ ps)) _ h in
    let (later, ordered, h2) = bind-eq-ok (order_groups (pool + 1) gs) _ h1 in
    let first = frame_items-has 0 (p ∷ ps) i framed in
    let rest = order_groups-has (pool + 1) gs i ordered in
    ok-elim (λ x. has_item i x ≡ any (has_index i) ((p ∷ ps) ∷ gs)) h2 (rw (first, rest) refl)

length-replicate : (n : ℕ) → length (replicate {A = List Prepared} n []) ≡ n
length-replicate zero = refl
length-replicate (suc n) = ap suc (length-replicate n)

-- A plan of a client whose keys all have a server has an item for every operation.
pub plan_batch-has :
    (c : Client)
    → ((key : List ℕ) (i : ℕ) → server c key ≡ ok i → i < length c.addresses)
    → (os : List Submitted) {groups : List Group} (i : ℕ) → plan_batch c os ≡ ok groups
    → i < length os
    → has_item i groups ≡ true
unfolding plan_batch
plan_batch-has c own os i h k =
    let (gs, made, h1) = bind-eq-ok (group_from c 0 os (replicate (length c.addresses) [])) _ h in
    order_groups-has 0 gs i h1
    ∙ group_from-has c (length c.addresses) own 0 os (replicate (length c.addresses) []) i made
        (length-replicate (length c.addresses)) (inr (omega arith, omega (arith, k)))
