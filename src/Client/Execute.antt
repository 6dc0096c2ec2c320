-- ===== src/Client/Execute.antt =====
-- `reportError`, `absorb` and `executeMeta` of client.go.
pub mod Outcome
pub mod Policy
use go_memcache.Base.{
  ℕ, Bool, true, false, not, ◌&&◌, [], ◌∷◌, ◌++◌, Option, none, some, Bytes, ◌==◌, if◌then◌else◌,
  length,
}
use go_memcache.Errors.{
  Err, CtxErr, ambiguous, Result, ok, err, as_ambiguous, as_usage, as_server, is_ctx,
}
use go_memcache.Types.{RawResponse}
use go_memcache.Wire.{MetaCommand}
use go_memcache.Command.Flags.{command_has_side_effect}
use go_memcache.Client.{Client}
use go_memcache.Client.Prepare.{prepare_meta}
use go_memcache.Client.State.{Ctx, Exchange, answered, failed, Network, State, Action}

-- `reportError(err)`: the hook is called where one is installed.
unfoldable pub report_error : {W : Type 0} → Client → Err → State W → State W
report_error c e s = elim c.config.on_error [
  | none ↦ s
  | some hook ↦ record s { reported = s.reported ++ e ∷ [] }
]

-- `ctxErr != nil && errors.Is(err, ctxErr)`.
unfoldable pub is_own_ctx : Option CtxErr → Err → Bool
is_own_ctx none e = false
is_own_ctx (some t) e = is_ctx e t

-- Whether the Degrade policy takes an error in.
unfoldable pub absorbs : Client → Option CtxErr → Err → Bool
unfolding is_own_ctx
absorbs c ctx e =
    if not c.config.degrade
    then false
    else if as_ambiguous e
    then false
    else if as_usage e
    then false
    else not (is_own_ctx ctx e)

-- `absorb(ctx, err)`: the decision, and the report of an error that is taken in.
unfoldable pub absorb : {W : Type 0} → Network W → Client → Err → State W → Bool × State W
unfolding absorbs report_error
absorb net c e s =
    let yes_absorb = absorbs c (net.ctx_err s.world) e in
    (yes_absorb, if yes_absorb then report_error c e s else s)

-- `if c.absorb(ctx, err) { return fallback, nil }; return err`.
unfoldable pub absorb_or : {W A : Type 0} → Network W → Client → A → Err → Action W A
unfolding absorb
absorb_or net c fallback e s =
    let (taken, s') = absorb net c e s in (if taken then ok fallback else err e, s')

-- The error of an exchange that failed after `written` bytes.
unfoldable pub exchange_error : MetaCommand → ℕ → ℕ → Err → Err
exchange_error m size written e =
    if as_server e
    then e
    else if written == size && command_has_side_effect m
    then ambiguous m.command m.key e
    else e

unfoldable pub response_result : RawResponse → Option Err → Result RawResponse
response_result r none = ok r
response_result r (some e) = err e

unfoldable pub exchange_result : MetaCommand → ℕ → Exchange → Result RawResponse
unfolding exchange_error response_result
exchange_result m size (failed responses written e) = err (exchange_error m size written e)
exchange_result m size (answered first rest written) = response_result first first.parse_err

unfoldable pub send_prepared :
    {W : Type 0} → Network W → Ctx → MetaCommand → Result (Bytes × ℕ) → Action W RawResponse
unfolding exchange_result
send_prepared net ctx m (err e) s = (err e, s)
send_prepared net ctx m (ok (payload, pool)) s =
    let (x, w) = net.exchange pool ctx payload (λ _. true) s.world in
    (exchange_result m (length payload) x, record s { world = w })

-- `executeMeta`.
unfoldable pub execute_meta :
    {W : Type 0} → Network W → Client → Ctx → MetaCommand → Action W RawResponse
unfolding send_prepared
execute_meta net c ctx m = send_prepared net ctx m (prepare_meta c m)
