-- ===== src/Client/Execute/Policy.antt =====
-- What the Degrade policy may and may not take in.
use mathlib.Core.Path.{subst}
use go_memcache.Base.{ℕ, ◌≡◌, ◌↔◌, refl, Bool, true, false, Option, none, some, Bytes, arith}
use go_memcache.Errors.{
  Message, Err, CtxErr, canceled, deadline_exceeded, wrapped, usage, framed, ambiguous, context,
  external, as_ambiguous, as_usage, is_ctx, same_ctx,
}
use go_memcache.Client.{Client}
use go_memcache.Client.State.{Network, State}
use go_memcache.Client.Execute.{is_own_ctx, absorb}

-- The `Unwrap` methods.
abbrev pub unwrap : Err → Option Err
unwrap (wrapped m e) = some e
unwrap (usage e) = some e
unwrap (ambiguous op key e) = some e
unwrap (framed e) = some e
unwrap _ = none

-- The errors that an error unwraps to, itself included.
pub data Chain : Err → Err → Type 0 where
  here : {e : Err} → Chain e e
  there : {e f g : Err} → unwrap e ≡ some f → Chain f g → Chain e g

-- An error that is never taken in, in a call whose context has ended with `t`, or has not ended.
pub data Stops (t : Option CtxErr) : Err → Type 0 where
  lost : (op key : Bytes) (cause : Err) → Stops t (ambiguous op key cause)
  refused : (cause : Err) → Stops t (usage cause)
  own : (c : CtxErr) → t ≡ some c → Stops t (context c)
  own_timeout : (n : ℕ) → t ≡ some deadline_exceeded → Stops t (external true n)

-- A chain with a member that stops.
abbrev HasStop : Option CtxErr → Err → Type 0
HasStop t e = (f : Err) × Chain e f × Stops t f

deeper : (t : Option CtxErr) (e f : Err) → unwrap e ≡ some f → HasStop t f → HasStop t e
deeper t e f h (g, c, s) = (g, there h c, s)

ambiguous-HasStop : (t : Option CtxErr) (e : Err) → as_ambiguous e ≡ true → HasStop t e
unfolding as_ambiguous
ambiguous-HasStop t (ambiguous op key e) h = (ambiguous op key e, here, lost op key e)
ambiguous-HasStop t (wrapped m e) h = deeper t (wrapped m e) e refl (ambiguous-HasStop t e h)
ambiguous-HasStop t (usage e) h = deeper t (usage e) e refl (ambiguous-HasStop t e h)
ambiguous-HasStop t (framed e) h = deeper t (framed e) e refl (ambiguous-HasStop t e h)
ambiguous-HasStop t _ h = cc

usage-HasStop : (t : Option CtxErr) (e : Err) → as_usage e ≡ true → HasStop t e
unfolding as_usage
usage-HasStop t (usage e) h = (usage e, here, refused e)
usage-HasStop t (wrapped m e) h = deeper t (wrapped m e) e refl (usage-HasStop t e h)
usage-HasStop t (ambiguous op key e) h = deeper t (ambiguous op key e) e refl (usage-HasStop t e h)
usage-HasStop t (framed e) h = deeper t (framed e) e refl (usage-HasStop t e h)
usage-HasStop t _ h = cc

same_ctx→≡ : (c d : CtxErr) → same_ctx c d ≡ true → c ≡ d
same_ctx→≡ canceled canceled h = refl
same_ctx→≡ deadline_exceeded deadline_exceeded h = refl
same_ctx→≡ _ _ h = cc

ctx-HasStop : (c : CtxErr) (e : Err) → is_ctx e c ≡ true → HasStop (some c) e
unfolding is_ctx
ctx-HasStop c (context d) h = let same_error = same_ctx→≡ d c h in (context d, here, own d (cc))
ctx-HasStop deadline_exceeded (external true n) h = (external true n, here, own_timeout n refl)
ctx-HasStop c (wrapped m e) h = deeper (some c) (wrapped m e) e refl (ctx-HasStop c e h)
ctx-HasStop c (usage e) h = deeper (some c) (usage e) e refl (ctx-HasStop c e h)
ctx-HasStop c (ambiguous op key e) h =
    deeper (some c) (ambiguous op key e) e refl (ctx-HasStop c e h)
ctx-HasStop c (framed e) h = deeper (some c) (framed e) e refl (ctx-HasStop c e h)
ctx-HasStop _ _ h = cc

-- The three tests fail on the error.
abbrev IsOpen : Option CtxErr → Err → Type 0
IsOpen t e = (as_ambiguous e ≡ false) × (as_usage e ≡ false) × (is_own_ctx t e ≡ false)

IsOpen-wrapped : (t : Option CtxErr) (m : Message) (e : Err) → IsOpen t (wrapped m e) → IsOpen t e
unfolding as_ambiguous as_usage is_own_ctx is_ctx
IsOpen-wrapped none m e o = o
IsOpen-wrapped (some c) m e o = o

IsOpen-framed : (t : Option CtxErr) (e : Err) → IsOpen t (framed e) → IsOpen t e
unfolding as_ambiguous as_usage is_own_ctx is_ctx
IsOpen-framed none e o = o
IsOpen-framed (some c) e o = o

IsOpen-unwrap : (t : Option CtxErr) (e f : Err) → unwrap e ≡ some f → IsOpen t e → IsOpen t f
unfolding as_ambiguous as_usage
IsOpen-unwrap t (wrapped m e) f h o =
    let same_error : e ≡ f = cc in subst (λ x. IsOpen t x) same_error (IsOpen-wrapped t m e o)
IsOpen-unwrap t (framed e) f h o =
    let same_error : e ≡ f = cc in subst (λ x. IsOpen t x) same_error (IsOpen-framed t e o)
IsOpen-unwrap t (usage e) f h (_, closed, _) = cc
IsOpen-unwrap t (ambiguous op key e) f h (closed, _, _) = cc
IsOpen-unwrap t _ f h o = cc

own_ctx-context : (c : CtxErr) → is_own_ctx (some c) (context c) ≡ true
unfolding is_own_ctx is_ctx
own_ctx-context canceled = refl
own_ctx-context deadline_exceeded = refl

IsOpen-stop : (t : Option CtxErr) (f : Err) → Stops t f → ¬ IsOpen t f
unfolding as_ambiguous as_usage is_own_ctx is_ctx
IsOpen-stop t _ (lost op key cause) = λ o. let closed = o.0 in cc
IsOpen-stop t _ (refused cause) = λ o. let closed = o.1 in cc
IsOpen-stop t _ (own c h) = λ o.
    let closed : is_own_ctx (some c) (context c) ≡ false = rw h at o.2 in
    let open_ctx = own_ctx-context c in cc
IsOpen-stop t _ (own_timeout n h) = λ o.
    let closed : is_own_ctx (some deadline_exceeded) (external true n) ≡ false = rw h at o.2 in cc

Chain-open : (t : Option CtxErr) (e f : Err) → Chain e f → IsOpen t e → ¬ Stops t f
Chain-open t e f here o = λ s. IsOpen-stop t e s o
Chain-open t e f (there h c) o = Chain-open t _ f c (IsOpen-unwrap t e _ h o)

absorb-IsOpen :
    {W : Type 0} (net : Network W) (c : Client) (e : Err) (s : State W)
    → (absorb net c e s).0 ≡ true
    → (c.config.degrade ≡ true) × IsOpen (net.ctx_err s.world) e
unfolding absorb
absorb-IsOpen net c e s h = ground arith

IsOpen-absorb :
    {W : Type 0} (net : Network W) (c : Client) (e : Err) (s : State W)
    → c.config.degrade ≡ true
    → IsOpen (net.ctx_err s.world) e
    → (absorb net c e s).0 ≡ true
unfolding absorb
IsOpen-absorb net c e s on open_chain = ground arith

own_ctx-HasStop : (t : Option CtxErr) (e : Err) → is_own_ctx t e ≡ true → HasStop t e
unfolding is_own_ctx
own_ctx-HasStop none e h = cc
own_ctx-HasStop (some c) e h = ctx-HasStop c e h

-- With no member that stops, the three tests fail.
none_stops-IsOpen :
    (t : Option CtxErr) (e : Err) → ((f : Err) → Chain e f → ¬ Stops t f) → IsOpen t e
none_stops-IsOpen t e h = (
  fails (as_ambiguous e) (ambiguous-HasStop t e),
  fails (as_usage e) (usage-HasStop t e),
  fails (is_own_ctx t e) (own_ctx-HasStop t e),
)
  where
    fails : (b : Bool) → (b ≡ true → HasStop t e) → b ≡ false
    fails false k = refl
    fails true k = let (f, c, s) = k refl in absurd (h f c s)

-- An error is taken in exactly when Degrade is on and no error that it unwraps to, itself included,
-- is an ambiguous write, a usage error, or the error with which the caller's own context has ended,
-- of the context itself or of a deadline that the network has met.
pub absorb_iff :
    {W : Type 0} (net : Network W) (c : Client) (e : Err) (s : State W)
    → ((absorb net c e s).0 ≡ true)
      ↔ ((c.config.degrade ≡ true) × ((f : Err) → Chain e f → ¬ Stops (net.ctx_err s.world) f))
absorb_iff net c e s = (
  (λ h.
      let (on, open_chain) = absorb-IsOpen net c e s h in
      (on, λ f d. Chain-open (net.ctx_err s.world) e f d open_chain)),
  (λ h. IsOpen-absorb net c e s h.0 (none_stops-IsOpen (net.ctx_err s.world) e h.1)),
)
