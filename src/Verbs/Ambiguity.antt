-- ===== src/Verbs/Ambiguity.antt =====
-- The verbs of set.go and delete.go with an exchange that ends in an ambiguous write.
use go_memcache.Base.{ℕ, true, ◌≡◌, arith, Bytes, ◌∷◌, some}
use go_memcache.Errors.{Err, ok, err, as_ambiguous}
use go_memcache.Types.{StoreMode, Seconds, no_set_options, no_delete_options}
use go_memcache.Options.{Duration, resolve_ttl}
use go_memcache.Wire.{MetaCommand}
use go_memcache.Codec.{Codec, Payload, encode}
use go_memcache.Command.Get.{is_empty}
use go_memcache.Command.Delete.{build_delete}
use go_memcache.Client.{Client}
use go_memcache.Client.State.{caller, Network, State}
use go_memcache.Client.Execute.{absorbs, absorb, absorb_or, execute_meta}
use go_memcache.Verbs.Set.{do_set, set, concat}
use go_memcache.Verbs.Delete.{delete}

absorb_or-ambiguous :
    {W A : Type 0} (net : Network W) (c : Client) (fallback : A) (e : Err) (s : State W)
    → as_ambiguous e ≡ true
    → absorb_or net c fallback e s ≡ (err e, s)
unfolding absorb_or absorb absorbs
absorb_or-ambiguous net c fallback e s h = ground arith

-- When the TTL is accepted, the encoding of the value is not empty, and the exchange behind a `Set`
-- ends in an ambiguous write, `Set` returns that error, with Degrade or without it, and reports
-- nothing to the hook.
pub set-ambiguous :
    {W V : Type 0} (net : Network W) (c : Client) (codec : Codec V) (key : Bytes)
    (value : Payload V) (ttl : Duration) (s s' : State W) {expiration : Seconds} {b : ℕ}
    {bytes : Bytes} {e : Err}
    → resolve_ttl (net.now s.world) ttl ≡ ok expiration
    → encode codec value ≡ ok (b ∷ bytes)
    → do_set net c key (b ∷ bytes) (record no_set_options { ttl = expiration }) s ≡ (err e, s')
    → as_ambiguous e ≡ true
    → set net c codec key value ttl s ≡ (err e, s')
unfolding set is_empty
set-ambiguous net c codec key value ttl s s' {e = e} resolved encoded sent h =
    rw (resolved, encoded, sent) (absorb_or-ambiguous net c tt e s' h)

-- When the TTL is accepted, the fragment is not empty, and the exchange behind an `Append` or
-- `Prepend` ends in an ambiguous write, the verb returns that error, with Degrade or without it, and
-- reports nothing to the hook.
concat-ambiguous :
    {W : Type 0} (mode : StoreMode) (net : Network W) (c : Client) (key : Bytes) (b : ℕ)
    (fragment : Bytes) (ttl : Duration) (s s' : State W) {expiration : Seconds} {e : Err}
    → resolve_ttl (net.now s.world) ttl ≡ ok expiration
    → do_set net c key
        (b ∷ fragment)
        (record no_set_options { mode = mode; vivify_ttl = some expiration })
        s
      ≡ (err e, s')
    → as_ambiguous e ≡ true
    → concat mode net c key (b ∷ fragment) ttl s ≡ (err e, s')
unfolding concat is_empty
concat-ambiguous mode net c key b fragment ttl s s' {e = e} resolved sent h =
    rw (resolved, sent) (absorb_or-ambiguous net c tt e s' h)

-- When the exchange behind a `Delete` ends in an ambiguous write, `Delete` returns that error, with
-- Degrade or without it, and reports nothing to the hook.
delete-ambiguous :
    {W : Type 0} (net : Network W) (c : Client) (key : Bytes) (s s' : State W) {m : MetaCommand}
    {e : Err}
    → build_delete key no_delete_options ≡ ok m
    → execute_meta net c caller m s ≡ (err e, s')
    → as_ambiguous e ≡ true
    → delete net c key s ≡ (err e, s')
unfolding delete
delete-ambiguous net c key s s' {e = e} built sent h =
    rw (built, sent) (absorb_or-ambiguous net c tt e s' h)
