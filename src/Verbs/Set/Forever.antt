-- ===== src/Verbs/Set/Forever.antt =====
-- What `Append` and `Prepend` do with the TTL `Forever`.
use go_memcache.Base.{
  ℕ, true, false, ◌≡◌, refl, arith, Bytes, ◌∷◌, if◌then◌else◌, Option, none, some,
}
use go_memcache.Base.Int.{pos}
use go_memcache.Errors.{plain, ok, err, vivify_not_positive, as_ambiguous, as_usage, is_ctx, CtxErr}
use go_memcache.Types.{StoreMode, mode_append, mode_prepend}
use go_memcache.Types.Expiration.{expires_in}
use go_memcache.Options.{resolve_ttl}
use go_memcache.Command.Flags.{not_positive}
use go_memcache.Command.Set.{build_set, mode_flag, is_concat, is_add}
use go_memcache.Client.{Client}
use go_memcache.Client.State.{Network, State}
use go_memcache.Client.Execute.{absorb_or, absorb, absorbs, report_error, is_own_ctx}
use go_memcache.Verbs.Set.{do_set, concat}

concat_forever-absorb_or :
    {W : Type 0} (mode : StoreMode) (net : Network W) (c : Client) (key : Bytes) (b : ℕ)
    (fragment : Bytes) (s : State W)
    → is_concat mode ≡ true
    → concat mode net c key (b ∷ fragment) (pos 0) s
      ≡ absorb_or net c tt (plain vivify_not_positive) s
unfolding concat do_set resolve_ttl build_set expires_in not_positive mode_flag is_concat is_add
concat_forever-absorb_or mode_append net c key b fragment s h = refl
concat_forever-absorb_or mode_prepend net c key b fragment s h = refl
concat_forever-absorb_or _ net c key b fragment s h = cc

is_own_ctx-plain : (ctx : Option CtxErr) → is_own_ctx ctx (plain vivify_not_positive) ≡ false
unfolding is_own_ctx is_ctx
is_own_ctx-plain none = refl
is_own_ctx-plain (some t) = refl

-- An append or prepend of a fragment that is not empty, with the TTL `Forever`, sends nothing and
-- starts nothing, whatever its key; and it fails, except that with Degrade it reports success.
pub concat_forever :
    {W : Type 0} (mode : StoreMode) (net : Network W) (c : Client) (key : Bytes) (b : ℕ)
    (fragment : Bytes) (s : State W)
    → is_concat mode ≡ true
    → ((concat mode net c key (b ∷ fragment) (pos 0) s).0
        ≡ (if c.config.degrade then ok tt else err (plain vivify_not_positive)))
      × ((concat mode net c key (b ∷ fragment) (pos 0) s).1.world ≡ s.world)
      × ((concat mode net c key (b ∷ fragment) (pos 0) s).1.spawned ≡ s.spawned)
unfolding absorb_or absorb absorbs report_error as_ambiguous as_usage
concat_forever mode net c key b fragment s h =
    rw
      (
        concat_forever-absorb_or mode net c key b fragment s h,
        is_own_ctx-plain (net.ctx_err s.world),
      )
      (ground arith)
