-- ===== src/Verbs/Update/Attempts.antt =====
-- The attempts of `Update` and `Take`, described by the exchanges with the server.
use go_memcache.Base.{
  ◌≡◌, ◌≢◌, ◌⊎◌, inl, inr, refl, Bool, true, false, not, ◌&&◌, Bool-cases, [], ◌∷◌, Option, none,
  some, Bytes, if◌then◌else◌,
}
use go_memcache.Errors.{Err, protocol, empty_value, Result, ok, err, unexpected_mutation}
use go_memcache.Types.{
  Seconds, ResponseCode, GetStatus, ValueState, GetResult, RawResponse, is_hit, is_applied,
  StoreMode, MetaDeleteOptions, MutationStatus,
}
use go_memcache.Wire.{MetaCommand}
use go_memcache.Command.Get.{is_empty}
use go_memcache.Command.Set.{store_status, is_add}
use go_memcache.Client.{Client}
use go_memcache.Client.State.{caller, Network, State, next, choose, handle, lift, lift_pair}
use go_memcache.Client.Execute.{execute_meta}
use go_memcache.Verbs.Get.{is_stale_win, return_stale_win, spawn_election, election}
use go_memcache.Verbs.Set.{do_set}
use go_memcache.Verbs.Update.{
  is_fresh, current_value, compare_of, write_options, read_version, abort, write_next, attempt,
}
use go_memcache.Verbs.Update.Conditional.{IsWrite, write_options-conditional}

-- What the transform is given: the value of a fresh hit that is not empty, and nothing otherwise.
pub data Current (r : GetResult) : Option Bytes → Type 0 where
  found :
      r.status ≡ GetStatus.hit
      → r.value_state ≡ ValueState.fresh
      → is_empty r.value ≡ false
      → Current r (some r.value)
  missing :
      (r.status ≢ GetStatus.hit) ⊎ ((r.value_state ≢ ValueState.fresh) ⊎ (is_empty r.value ≡ true))
      → Current r none

-- What the server says of a conditional command.
pub data Reply : Type 0 where
  applied refused unexpected : Reply

abbrev pub set_reply : ResponseCode → Reply
set_reply ResponseCode.header = applied
set_reply ResponseCode.not_stored = refused
set_reply ResponseCode.exists = refused
set_reply ResponseCode.not_found = refused
set_reply _ = unexpected

abbrev pub delete_reply : ResponseCode → Reply
delete_reply ResponseCode.header = applied
delete_reply ResponseCode.exists = refused
delete_reply ResponseCode.not_found = refused
delete_reply _ = unexpected

-- The state after an entry was left as it is: a refresh that the read has won by accident went back.
abbrev pub given_back : {W : Type 0} → Network W → Bytes → GetResult → State W → State W
given_back net key r s = if is_stale_win r then (return_stale_win net key r s).1 else s

-- From its read an attempt of `update` has come to the command `m`, in the state `s1`.
pub record Sends {W A : Type 0} (net : Network W) (c : Client) (key : Bytes) (expiration : Seconds)
    (fn : Option Bytes → Result (Bytes × A)) (s s1 : State W) (stored : Bytes × A) (m : MetaCommand)
    : Type 0 where
  pub r : GetResult
  pub read : read_version net c key s ≡ (ok r, s1)
  pub current : Option Bytes
  pub given : Current r current
  pub next : fn current ≡ ok stored
  pub full : is_empty stored.0 ≡ false
  pub write : IsWrite key stored.0 expiration r m

-- Every way in which an attempt of `update` ends, with its result and its last state.
pub data Attempt {W A : Type 0} (net : Network W) (c : Client) (key : Bytes) (expiration : Seconds)
    (fn : Option Bytes → Result (Bytes × A)) (s : State W)
    : Result (Option (Bytes × A)) × State W → Type 0 where
  not_read :
      {e : Err} {s1 : State W}
      → read_version net c key s ≡ (err e, s1)
      → Attempt net c key expiration fn s (err e, s1)
  not_made :
      {r : GetResult} {current : Option Bytes} {e : Err} {s1 : State W}
      → read_version net c key s ≡ (ok r, s1)
      → Current r current
      → fn current ≡ err e
      → Attempt net c key expiration fn s (err e, given_back net key r s1)
  made_empty :
      {r : GetResult} {current : Option Bytes} {a : A} {s1 : State W}
      → read_version net c key s ≡ (ok r, s1)
      → Current r current
      → fn current ≡ ok ([], a)
      → Attempt net c key expiration fn s (err empty_value, given_back net key r s1)
  not_sent :
      {s1 s2 : State W} {stored : Bytes × A} {m : MetaCommand} {e : Err}
      → Sends net c key expiration fn s s1 stored m
      → execute_meta net c caller m s1 ≡ (err e, s2)
      → Attempt net c key expiration fn s (err e, s2)
  stored :
      {s1 s2 : State W} {stored : Bytes × A} {m : MetaCommand} {wire : RawResponse}
      → Sends net c key expiration fn s s1 stored m
      → execute_meta net c caller m s1 ≡ (ok wire, s2)
      → set_reply wire.code ≡ applied
      → Attempt net c key expiration fn s (ok (some stored), s2)
  lost :
      {s1 s2 : State W} {stored : Bytes × A} {m : MetaCommand} {wire : RawResponse}
      → Sends net c key expiration fn s s1 stored m
      → execute_meta net c caller m s1 ≡ (ok wire, s2)
      → set_reply wire.code ≡ refused
      → Attempt net c key expiration fn s (ok none, s2)
  not_understood :
      {s1 s2 : State W} {stored : Bytes × A} {m : MetaCommand} {wire : RawResponse}
      → Sends net c key expiration fn s s1 stored m
      → execute_meta net c caller m s1 ≡ (ok wire, s2)
      → set_reply wire.code ≡ unexpected
      → Attempt net c key expiration fn s (err (protocol unexpected_mutation), s2)

current_value-Current : (r : GetResult) → Current r (current_value r)
unfolding current_value is_hit is_fresh
current_value-Current r = go r.status r.value_state (is_empty r.value) refl refl refl
  where
    go :
        (status : GetStatus) (v : ValueState) (b : Bool)
        → r.status ≡ status
        → r.value_state ≡ v
        → is_empty r.value ≡ b
        → Current r (if is_hit status && (is_fresh v && not b) then some r.value else none)
    go GetStatus.hit ValueState.fresh false e h k = found e h k
    go GetStatus.hit ValueState.fresh true e h k = missing (inr (inr k))
    go GetStatus.hit _ b e h k = missing (inr (inl (λ l. cc)))
    go _ v b e h k = missing (inl (λ l. cc))

spawn_election-ok :
    {W : Type 0} (key : Bytes) (o : Option MetaDeleteOptions) (s : State W)
    → (spawn_election key o s).0 ≡ ok tt
spawn_election-ok key none s = refl
spawn_election-ok key (some o) s = refl

pub return_stale_win-ok :
    {W : Type 0} (net : Network W) (key : Bytes) (r : GetResult) (s : State W)
    → (return_stale_win net key r s).0 ≡ ok tt
unfolding return_stale_win
return_stale_win-ok net key r s =
    spawn_election-ok key (election (net.now s.world) r.metadata.cas r.metadata.ttl) s

abort_lem :
    {W A : Type 0} (net : Network W) (key : Bytes) (r : GetResult) (e : Err) (s : State W)
    → abort {A = A} net key r e s ≡ (err e, given_back net key r s)
unfolding abort
abort_lem net key r e s = elim (Bool-cases (is_stale_win r)) [
  | inl h ↦ rw (h, return_stale_win-ok net key r s) refl
  | inr h ↦ rw h refl
]

module _ {W A : Type 0} (net : Network W) (c : Client) (key : Bytes) (expiration : Seconds)
    (fn : Option Bytes → Result (Bytes × A)) (s : State W) where
  -- The reply to the command of an attempt.
  from_reply :
      {s1 s2 : State W} {stored : Bytes × A} {m : MetaCommand} {wire : RawResponse}
      (mode : StoreMode) (code : ResponseCode)
      → Sends net c key expiration fn s s1 stored m
      → execute_meta net c caller m s1 ≡ (ok wire, s2)
      → wire.code ≡ code
      → Attempt net c key expiration fn s (
          next
            (lift_pair (store_status code mode) s2).0
            (λ status t. (ok (if is_applied status then some stored else none), t))
            (lift_pair (store_status code mode) s2).1)
  unfolding store_status is_applied
  from_reply mode ResponseCode.header w sent h = stored w sent (rw h refl)
  from_reply mode ResponseCode.exists w sent h = lost w sent (rw h refl)
  from_reply mode ResponseCode.not_found w sent h = lost w sent (rw h refl)
  from_reply mode ResponseCode.not_stored w sent h = elim (Bool-cases (is_add mode)) [
    | inl e ↦ rw e (lost w sent (rw h refl))
    | inr e ↦ rw e (lost w sent (rw h refl))
  ]
  from_reply mode _ w sent h = not_understood w sent (rw h refl)

  from_execute :
      {s1 : State W} {stored : Bytes × A} {m : MetaCommand} (mode : StoreMode)
      (o : Result RawResponse × State W)
      → Sends net c key expiration fn s s1 stored m
      → execute_meta net c caller m s1 ≡ o
      → let t : Result MutationStatus × State W =
          next o.0 (λ wire. lift_pair (store_status wire.code mode)) o.1 in
        Attempt net c key expiration fn s
          (next t.0 (λ status t'. (ok (if is_applied status then some stored else none), t')) t.1)
  from_execute mode (err e, s2) w sent = not_sent w sent
  from_execute mode (ok wire, s2) w sent = from_reply mode wire.code w sent refl

  -- What the transform has returned, for the read of the attempt.
  from_transform :
      (r : GetResult) (s1 : State W) (o : Result (Bytes × A))
      → read_version net c key s ≡ (ok r, s1)
      → fn (current_value r) ≡ o
      → Attempt net c key expiration fn s
          (choose o (write_next net c key expiration r) (abort net key r) s1)
  unfolding write_next do_set is_empty
  from_transform r s1 (err e) h k =
      rw (abort_lem net key r e s1) (not_made h (current_value-Current r) k)
  from_transform r s1 (ok ([], a)) h k =
      rw (abort_lem net key r empty_value s1) (made_empty h (current_value-Current r) k)
  from_transform r s1 (ok (b ∷ bytes, a)) h k =
      let (m, built, w) = write_options-conditional key (b ∷ bytes) expiration r in
      rw built (
        from_execute (write_options expiration (compare_of r)).mode (execute_meta net c caller m s1)
          (record {
            r = r;
            read = h;
            current = current_value r;
            given = current_value-Current r;
            next = k;
            full = refl;
            write = w;
          })
          refl)

  from_read :
      (o : Result GetResult × State W)
      → read_version net c key s ≡ o
      → Attempt net c key expiration fn s (
          next o.0
            (λ r.
              handle
                (lift (fn (current_value r)))
                (write_next net c key expiration r)
                (abort net key r))
            o.1)
  from_read (err e, s1) h = not_read h
  from_read (ok r, s1) h = from_transform r s1 (fn (current_value r)) h refl

  -- An attempt ends in one of these ways.
  pub attempt_lem : Attempt net c key expiration fn s (attempt net c key expiration fn s)
  unfolding attempt
  attempt_lem = from_read (read_version net c key s) refl
