-- ===== src/Batch/Prepare/Slices.antt =====
-- Where the commands of a batch stand in the bytes that are sent.
use mathlib.Core.Path.{subst}
use mathlib.Core.List.{append_assoc}
use go_memcache.Base.{
  ℕ, ◌+◌, ◌-◌, ◌≤◌, ◌≡◌, refl, ◌∙◌, ap, sym, arith, List, [], ◌∷◌, ◌++◌, Bytes, All, length, take,
  drop, length-append, drop-append, take-append, replicate,
}
use go_memcache.Errors.{Result, ok, err, bind-eq-ok, ok-elim}
use go_memcache.Wire.{marshal}
use go_memcache.Client.{Client}
use go_memcache.Batch.{Submitted, Prepared, quiet_command}
use go_memcache.Batch.Prepare.{
  Group, at_operation, frame_items, order_groups, group_from, plan_batch, barrier_command,
}

-- The place of an item in `payload` holds what is sent for it.
pub record IsPlaced (payload : Bytes) (p : Prepared) : Type 0 where
  pub ordered : p.from ≤ p.to
  pub inside : p.to ≤ length payload
  pub sent : marshal (quiet_command p) ≡ ok (take (p.to - p.from) (drop p.from payload))

at_operation-ok {ℓ} : {A : Type ℓ} (m : Result A) {a : A} → at_operation m ≡ ok a → m ≡ ok a
unfolding at_operation
at_operation-ok (ok a) h = h
at_operation-ok (err e) h = cc

add_sub : (a b : ℕ) → a + b - a ≡ b
add_sub a b = omega arith

IsPlaced-here :
    (pre wire rest : Bytes) (p : Prepared)
    → marshal (quiet_command p) ≡ ok wire
    → IsPlaced
        (pre ++ (wire ++ rest))
        (record p { from = length pre; to = length pre + length wire })
unfolding quiet_command
IsPlaced-here pre wire rest p h = record {
  ordered = omega arith;
  inside = omega (arith, length-append pre (wire ++ rest), length-append wire rest);
  sent =
      h
      ∙ ap ok (
          sym (
            rw (drop-append pre (wire ++ rest), add_sub (length pre) (length wire))
              (take-append wire rest)));
}

-- The items and the bytes of a group that starts with `p`.
record IsFramedItems (start : ℕ) (p : Prepared) (ps items : List Prepared) (payload : Bytes)
    : Type 0 where
  wire : Bytes
  later : List Prepared
  rest : Bytes
  sent : marshal (quiet_command p) ≡ ok wire
  framed : frame_items (start + length wire) ps ≡ ok (later, rest)
  same_items : items ≡ record p { from = start; to = start + length wire } ∷ later
  same_payload : payload ≡ wire ++ rest

frame_items-cons :
    (start : ℕ) (p : Prepared) (ps : List Prepared) {items : List Prepared} {payload : Bytes}
    → frame_items start (p ∷ ps) ≡ ok (items, payload)
    → IsFramedItems start p ps items payload
unfolding frame_items
frame_items-cons start p ps {items} {payload} h =
    let (wire, sent, later) = bind-eq-ok (at_operation (marshal (quiet_command p))) _ h in
    let ((items', rest), framed, last) =
      bind-eq-ok (frame_items (start + length wire) ps) _ later in
    record {
      wire = wire;
      later = items';
      rest = rest;
      sent = at_operation-ok _ sent;
      framed = framed;
      same_items = cc;
      same_payload = cc;
    }

frame_items-nil :
    (start : ℕ) {items : List Prepared} {payload : Bytes}
    → frame_items start [] ≡ ok (items, payload)
    → items ≡ []
unfolding frame_items
frame_items-nil start h = cc

IsPlaced-cons :
    (start : ℕ) (pre wire rest tail payload : Bytes) (p : Prepared) (later items : List Prepared)
    → start ≡ length pre
    → items ≡ record p { from = start; to = start + length wire } ∷ later
    → payload ≡ wire ++ rest
    → marshal (quiet_command p) ≡ ok wire
    → All (IsPlaced ((pre ++ wire) ++ (rest ++ tail))) later
    → All (IsPlaced (pre ++ (payload ++ tail))) items
IsPlaced-cons start pre wire rest tail payload p later items same_start same_items same_payload sent
      h =
    let total : pre ++ (payload ++ tail) ≡ (pre ++ wire) ++ (rest ++ tail) =
      simp (same_payload, append_assoc) in
    rw same_items (
      rw (same_start, same_payload, append_assoc wire rest tail)
          (IsPlaced-here pre wire (rest ++ tail) p sent),
      subst (λ bytes. All (IsPlaced bytes) later) (sym total) h,
    )

frame_items-IsPlaced :
    (ps : List Prepared) (start : ℕ) (pre : Bytes) {items : List Prepared} {payload : Bytes}
    (tail : Bytes)
    → start ≡ length pre
    → frame_items start ps ≡ ok (items, payload)
    → All (IsPlaced (pre ++ (payload ++ tail))) items
frame_items-IsPlaced [] start pre {items} {payload} tail same_start h =
    rw (frame_items-nil start h) tt
frame_items-IsPlaced (p ∷ ps) start pre {items} {payload} tail same_start h =
    let f = frame_items-cons start p ps h in
    IsPlaced-cons start pre f.wire f.rest tail payload p f.later items same_start f.same_items
      f.same_payload f.sent
      (frame_items-IsPlaced ps (start + length f.wire) (pre ++ f.wire) tail
        (omega (arith, same_start, length-append pre f.wire)) f.framed)

order_groups-IsPlaced :
    (pool : ℕ) (prepared : List (List Prepared)) {groups : List Group}
    → order_groups pool prepared ≡ ok groups
    → All (λ g. All (IsPlaced g.payload) g.items) groups
unfolding order_groups
order_groups-IsPlaced pool [] {groups} h =
    ok-elim (λ gs. All (λ g. All (IsPlaced g.payload) g.items) gs) h tt
order_groups-IsPlaced pool ([] ∷ prepared) h = order_groups-IsPlaced (pool + 1) prepared h
order_groups-IsPlaced pool ((p ∷ ps) ∷ prepared) {groups} h =
    let ((items, payload), framed, later) = bind-eq-ok (frame_items 0 (p ∷ ps)) _ h in
    let (groups', ordered, last) = bind-eq-ok (order_groups (pool + 1) prepared) _ later in
    ok-elim (λ gs. All (λ g. All (IsPlaced g.payload) g.items) gs) last
      (
        frame_items-IsPlaced (p ∷ ps) 0 [] barrier_command refl framed,
        order_groups-IsPlaced (pool + 1) prepared ordered,
      )

-- In the bytes that a batch sends to each server, the place that is recorded for an operation holds
-- exactly the command that is sent for it, and lies inside those bytes.
pub plan_batch-IsPlaced :
    (c : Client) (os : List Submitted) {groups : List Group}
    → plan_batch c os ≡ ok groups
    → All (λ g. All (IsPlaced g.payload) g.items) groups
unfolding plan_batch
plan_batch-IsPlaced c os h =
    let (prepared, _, ordered) =
      bind-eq-ok (group_from c 0 os (replicate (length c.addresses) [])) _ h in
    order_groups-IsPlaced 0 prepared ordered
