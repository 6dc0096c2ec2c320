-- ===== src/Client/Execute/Outcome.antt =====
-- Which errors of `executeMeta` leave the outcome of a command open.
use go_memcache.Base.{ℕ, true, false, ◌≡◌, refl, arith, ◌↔◌, List, Bytes, length}
use go_memcache.Errors.{Err, Result, ok, err, as_ambiguous, as_usage, as_server}
use go_memcache.Types.{RawResponse}
use go_memcache.Wire.{MetaCommand}
use go_memcache.Command.Flags.{command_has_side_effect}
use go_memcache.Client.{Client}
use go_memcache.Client.Prepare.{as_usage_error, prepare_meta}
use go_memcache.Client.State.{Ctx, failed, Network, State}
use go_memcache.Client.Execute.{exchange_error, exchange_result, send_prepared, execute_meta}

as_usage_error-err {ℓ} :
    {A : Type ℓ} (m : Result A) {e : Err} → as_usage_error m ≡ err e → as_usage e ≡ true
unfolding as_usage_error as_usage
as_usage_error-err (ok a) h = cc
as_usage_error-err (err e) h = grind arith

-- A command that is refused before the exchange, for its flags, its value, its key or its server,
-- fails with a usage error, and the state is what it was: nothing is sent.
execute_meta-refused :
    {W : Type 0} (net : Network W) (c : Client) (ctx : Ctx) (m : MetaCommand) (s : State W)
    {e : Err}
    → prepare_meta c m ≡ err e
    → (as_usage e ≡ true) × (execute_meta net c ctx m s ≡ (err e, s))
unfolding prepare_meta execute_meta send_prepared
execute_meta-refused net c ctx m s h = (as_usage_error-err _ h, rw h refl)

exchange_error-ambiguous :
    (m : MetaCommand) (size written : ℕ) (e : Err)
    → as_ambiguous e ≡ false
    → (as_ambiguous (exchange_error m size written e) ≡ true)
      ↔ ((as_server e ≡ false) × (written ≡ size) × (command_has_side_effect m ≡ true))
unfolding exchange_error as_ambiguous
exchange_error-ambiguous m size written e h = ground arith

-- When the exchange of a command fails with an error that is not itself an ambiguous write, the
-- command fails too, and its error says that the write is ambiguous exactly when the server gave no
-- error line, the whole command was written, and the command has a side effect.
pub execute_meta-ambiguous_iff :
    {W : Type 0} (net : Network W) (c : Client) (ctx : Ctx) (m : MetaCommand) (s : State W)
    {payload : Bytes} {pool written : ℕ} {responses : List RawResponse} {e : Err} {w : W}
    → prepare_meta c m ≡ ok (payload, pool)
    → net.exchange pool ctx payload (λ _. true) s.world ≡ (failed responses written e, w)
    → as_ambiguous e ≡ false
    → (e' : Err) × (execute_meta net c ctx m s ≡ (err e', record s { world = w }))
      × ((as_ambiguous e' ≡ true) ↔ (
          (as_server e ≡ false) × (written ≡ length payload) × (command_has_side_effect m ≡ true)))
unfolding execute_meta send_prepared exchange_result
execute_meta-ambiguous_iff net c ctx m s {payload = payload} {written = written} {e = e} h k plain =
    (
      exchange_error m (length payload) written e,
      rw (h, k) refl,
      exchange_error-ambiguous m (length payload) written e plain,
    )
