-- ===== src/Verbs/Update/Takes.antt =====
-- The attempts of `Take`, described by the exchanges with the server.
use go_memcache.Base.{
  ◌≡◌, ◌≢◌, ◌⊎◌, inl, inr, Bool-cases, refl, arith, ℕ, true, false, not, ◌||◌, any, same, same_refl,
  Option, none, some, Bytes, if◌then◌else◌,
}
use go_memcache.Errors.{Err, protocol, cas_omitted, Result, ok, err, unexpected_delete}
use go_memcache.Types.{
  ResponseCode, GetStatus, GetResult, RawResponse, is_hit, is_applied, no_delete_options,
}
use go_memcache.Wire.{MetaCommand}
use go_memcache.Std.Decimal.{format_uint}
use go_memcache.Command.Get.{is_empty}
use go_memcache.Command.Delete.{build_delete, delete_status}
use go_memcache.Client.{Client}
use go_memcache.Client.State.{caller, Network, State, ◌>>◌, done, next, lift_pair}
use go_memcache.Client.Execute.{execute_meta}
use go_memcache.Verbs.Get.{is_stale_win, return_stale_win}
use go_memcache.Verbs.Update.{read_version, take_version, take_attempt}
use go_memcache.Verbs.Update.Attempts.{
  applied, refused, unexpected, delete_reply, given_back, return_stale_win-ok,
}
use go_memcache.Verbs.Update.Conditional.{condition_flag}

-- The read of an attempt found a value with a CAS, and `m` deletes the key on that CAS.
pub record Removes {W : Type 0} (net : Network W) (c : Client) (key : Bytes) (s s1 : State W)
    (value : Bytes) (m : MetaCommand) : Type 0 where
  pub r : GetResult
  pub read : read_version net c key s ≡ (ok r, s1)
  pub hit : r.status ≡ GetStatus.hit
  pub taken : r.value ≡ value
  pub full : is_empty value ≡ false
  pub cas : ℕ
  pub version : r.metadata.cas ≡ some cas
  pub built : build_delete key (record no_delete_options { compare_cas = some cas }) ≡ ok m
  pub flagged : any (λ flag. same flag (condition_flag (some cas))) m.flags ≡ true

-- Every way in which an attempt of `Take` ends, with its result and its last state.
pub data TakeAttempt {W : Type 0} (net : Network W) (c : Client) (key : Bytes) (s : State W)
    : Result (Option (Option Bytes)) × State W → Type 0 where
  not_read :
      {e : Err} {s1 : State W}
      → read_version net c key s ≡ (err e, s1)
      → TakeAttempt net c key s (err e, s1)
  nothing :
      {r : GetResult} {s1 : State W}
      → read_version net c key s ≡ (ok r, s1)
      → (r.status ≢ GetStatus.hit) ⊎ (is_empty r.value ≡ true)
      → TakeAttempt net c key s (ok (some none), given_back net key r s1)
  without_cas :
      {r : GetResult} {s1 : State W}
      → read_version net c key s ≡ (ok r, s1)
      → r.status ≡ GetStatus.hit
      → is_empty r.value ≡ false
      → r.metadata.cas ≡ none
      → TakeAttempt net c key s (err (protocol cas_omitted), s1)
  not_sent :
      {s1 s2 : State W} {value : Bytes} {m : MetaCommand} {e : Err}
      → Removes net c key s s1 value m
      → execute_meta net c caller m s1 ≡ (err e, s2)
      → TakeAttempt net c key s (err e, s2)
  removed :
      {s1 s2 : State W} {value : Bytes} {m : MetaCommand} {wire : RawResponse}
      → Removes net c key s s1 value m
      → execute_meta net c caller m s1 ≡ (ok wire, s2)
      → delete_reply wire.code ≡ applied
      → TakeAttempt net c key s (ok (some (some value)), s2)
  kept :
      {s1 s2 : State W} {value : Bytes} {m : MetaCommand} {wire : RawResponse}
      → Removes net c key s s1 value m
      → execute_meta net c caller m s1 ≡ (ok wire, s2)
      → delete_reply wire.code ≡ refused
      → TakeAttempt net c key s (ok none, s2)
  not_understood :
      {s1 s2 : State W} {value : Bytes} {m : MetaCommand} {wire : RawResponse}
      → Removes net c key s s1 value m
      → execute_meta net c caller m s1 ≡ (ok wire, s2)
      → delete_reply wire.code ≡ unexpected
      → TakeAttempt net c key s (err (protocol unexpected_delete), s2)

-- The delete on a CAS always builds, and carries the CAS.
build_delete-flagged :
    (key : Bytes) (cas : ℕ)
    → (m : MetaCommand) × (build_delete key (record no_delete_options { compare_cas = some cas })
        ≡ ok m)
      × (any (λ flag. same flag (condition_flag (some cas))) m.flags ≡ true)
unfolding build_delete go_memcache.Command.Delete.delete_flags
    go_memcache.Command.Flags.append_opaque go_memcache.Command.Flags.opaque_flags
    go_memcache.Command.Flags.uint_flag go_memcache.Wire.validate_opaque
build_delete-flagged key cas = (_, refl, ground (arith, same_refl (format_uint cas)))

give_back_lem :
    {W : Type 0} (net : Network W) (key : Bytes) (r : GetResult) (s : State W)
    → ((if is_stale_win r then return_stale_win net key r else done tt)
          >> done {A = Option (Option Bytes)} (some none))
        s
      ≡ (ok (some none), given_back net key r s)
give_back_lem net key r s = elim (Bool-cases (is_stale_win r)) [
  | inl h ↦ rw (h, return_stale_win-ok net key r s) refl
  | inr h ↦ rw h refl
]

module _ {W : Type 0} (net : Network W) (c : Client) (key : Bytes) (s : State W) where
  from_reply :
      {s1 s2 : State W} {value : Bytes} {m : MetaCommand} {wire : RawResponse} (code : ResponseCode)
      → Removes net c key s s1 value m
      → execute_meta net c caller m s1 ≡ (ok wire, s2)
      → wire.code ≡ code
      → TakeAttempt net c key s (
          next
            (lift_pair (delete_status code) s2).0
            (λ status t. (ok (if is_applied status then some (some value) else none), t))
            (lift_pair (delete_status code) s2).1)
  unfolding delete_status is_applied
  from_reply ResponseCode.header w sent h = removed w sent (rw h refl)
  from_reply ResponseCode.exists w sent h = kept w sent (rw h refl)
  from_reply ResponseCode.not_found w sent h = kept w sent (rw h refl)
  from_reply _ w sent h = not_understood w sent (rw h refl)

  from_execute :
      {s1 : State W} {value : Bytes} {m : MetaCommand} (o : Result RawResponse × State W)
      → Removes net c key s s1 value m
      → execute_meta net c caller m s1 ≡ o
      → TakeAttempt net c key s (
          next o.0
            (λ wire t.
              next
                (lift_pair (delete_status wire.code) t).0
                (λ status t'. (ok (if is_applied status then some (some value) else none), t'))
                (lift_pair (delete_status wire.code) t).1)
            o.1)
  from_execute (err e, s2) w sent = not_sent w sent
  from_execute (ok wire, s2) w sent = from_reply wire.code w sent refl

  from_version :
      (r : GetResult) (s1 : State W) (cas : Option ℕ)
      → read_version net c key s ≡ (ok r, s1)
      → r.status ≡ GetStatus.hit
      → is_empty r.value ≡ false
      → r.metadata.cas ≡ cas
      → TakeAttempt net c key s (take_version net c key r cas s1)
  unfolding take_version
  from_version r s1 none h hit full k = without_cas h hit full k
  from_version r s1 (some cas) h hit full k =
      let (m, built, flagged) = build_delete-flagged key cas in
      rw built (
        from_execute (execute_meta net c caller m s1)
          (record {
            r = r;
            read = h;
            hit = hit;
            taken = refl;
            full = full;
            cas = cas;
            version = k;
            built = built;
            flagged = flagged;
          })
          refl)

  hit-of : (status : GetStatus) → is_hit status ≡ true → status ≡ GetStatus.hit
  unfolding is_hit
  hit-of GetStatus.hit h = refl
  hit-of _ h = cc

  not_hit-of : (status : GetStatus) → is_hit status ≡ false → status ≢ GetStatus.hit
  unfolding is_hit
  not_hit-of GetStatus.hit h = cc
  not_hit-of _ h = λ e. cc

  from_read :
      (o : Result GetResult × State W)
      → read_version net c key s ≡ o
      → TakeAttempt net c key s (
          next o.0
            (λ r.
              if not (is_hit r.status) || is_empty r.value
              then (if is_stale_win r then return_stale_win net key r else done tt)
                >> done (some none)
              else take_version net c key r r.metadata.cas)
            o.1)
  from_read (err e, s1) h = not_read h
  from_read (ok r, s1) h = elim (Bool-cases (is_hit r.status)) [
    | inr e ↦ rw (e, give_back_lem net key r s1) (nothing h (inl (not_hit-of r.status e)))
    | inl e ↦ elim (Bool-cases (is_empty r.value)) [
      | inl k ↦ rw (e, k, give_back_lem net key r s1) (nothing h (inr k))
      | inr k ↦ rw (e, k) (from_version r s1 r.metadata.cas h (hit-of r.status e) k refl)
    ]
  ]

  -- An attempt ends in one of these ways.
  pub take_attempt_lem : TakeAttempt net c key s (take_attempt net c key s)
  unfolding take_attempt
  take_attempt_lem = from_read (read_version net c key s) refl
