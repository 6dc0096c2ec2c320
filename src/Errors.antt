-- ===== src/Errors.antt =====
-- errors.go, and the error values that client.go and transport.go add: a Go `error` is a value of
-- `Err`. A message is a constructor of `Message`, without the operands of its format.
use go_memcache.Base.{ℕ, Bool, true, false, Bytes, ◌≡◌, refl}

-- The texts given to `fmt.Errorf`, `errors.New` and `ProtocolError`.
pub data Message : Type 0 where
  key_empty key_too_long opaque_too_long opaque_control : Message
  unsupported_command ms_requires_value value_not_accepted debug_binary_key invalid_flag : Message
  line_too_long line_not_crlf empty_response va_omitted_length va_invalid_length : Message
  value_exceeds_maximum value_exceeds_platform value_not_crlf me_omitted_key : Message
  unexpected_code invalid_uint_flag invalid_t_flag invalid_h_flag invalid_base64_key : Message
  quiet_needs_batch value_too_large router_index router_address : Message
  unless_cas_needs_value metadata_refresh vivify_not_positive refresh_not_positive : Message
  get_returned_header unexpected_get invalid_mode ttl_ignored vivify_only_concat : Message
  add_compares_cas invalidate_needs_cas unexpected_mutation unexpected_delete : Message
  unexpected_arithmetic stale_for_needs_invalidate initial_with_ttl initial_ttl_not_positive :
      Message
  arithmetic_returned_value arithmetic_returned_header arithmetic_not_uint64 : Message
  ttl_negative refresh_ahead_not_positive refresh_ahead_too_long nil_codec nil_hook : Message
  nil_router nil_dialer timeout_negative dial_timeout_negative idle_timeout_negative : Message
  max_conns_too_small max_item_size_negative nil_option_new network_empty no_servers : Message
  server_empty server_duplicate encoding_value decoding_value : Message
  set_not_stored delete_not_applied counter_not_updated grace_not_positive : Message
  returning_election cas_omitted no_transform no_loader loader_empty write_back_abandoned : Message
  write_back_failed release_failed refresh_failed : Message
  batch_operation batch_nil batch_unsupported batch_too_large batch_opaque : Message
  opaque_omitted opaque_invalid opaque_unexpected opaque_repeated barrier_omitted : Message
  required_omitted pipeline_failed arithmetic_suppressed value_for_key : Message
  unexpected_debug unexpected_noop response_without_request decoding_for_key : Message

-- `ServerError.Kind`.
pub data ServerKind : Type 0 where
  error client_error server_error : ServerKind

-- The two results of `ctx.Err()`.
pub data CtxErr : Type 0 where
  canceled deadline_exceeded : CtxErr

pub data Err : Type 0 where
  plain : Message → Err
  -- `fmt.Errorf` with `%w`
  wrapped : Message → Err → Err
  usage : Err → Err
  protocol : Message → Err
  server : ServerKind → Bytes → Err
  -- operation, key, cause
  ambiguous : Bytes → Bytes → Err → Err
  framed : Err → Err
  connection_lost : Err → Err
  -- `connectionLostError` around a nil cause
  connection_lost_nil : Err
  context : CtxErr → Err
  cache_miss closed not_stored conflict nil_option empty_value : Err
  -- An error of code outside the package. The flag says that `errors.Is` finds
  -- `context.DeadlineExceeded` in it, as it does in a timeout of the `net` package.
  external : Bool → ℕ → Err

-- A fallible call: its value, or its error.
pub data Result {ℓ} (A : Type ℓ) : Type ℓ where
  ok : A → Result A
  err : Err → Result A

infixl 5 ◌>>=◌ ◌>>◌
abbrev pub ◌>>=◌ {κ μ} : {V : Type κ} {U : Type μ} → Result V → (V → Result U) → Result U
ok value >>= later = later value
err cause >>= later = err cause

abbrev pub ◌>>◌ {ℓ} : {B : Type ℓ} → Result (Unit {0}) → Result B → Result B
m >> k = m >>= λ _. k

-- `if test { return …, err }`.
abbrev pub refuse_if : Bool → Err → Result (Unit {0})
refuse_if true e = err e
refuse_if false e = ok tt

abbrev pub is_ok {ℓ} : {A : Type ℓ} → Result A → Bool
is_ok (ok a) = true
is_ok (err e) = false

-- `errors.As(err, &ambiguous)`: the chain of `Unwrap`. `connectionLostError` has none.
unfoldable pub as_ambiguous : Err → Bool
as_ambiguous (ambiguous op key cause) = true
as_ambiguous (wrapped m e) = as_ambiguous e
as_ambiguous (usage e) = as_ambiguous e
as_ambiguous (framed e) = as_ambiguous e
as_ambiguous _ = false

-- `errors.As(err, &usage)`.
unfoldable pub as_usage : Err → Bool
as_usage (usage e) = true
as_usage (wrapped m e) = as_usage e
as_usage (ambiguous op key e) = as_usage e
as_usage (framed e) = as_usage e
as_usage _ = false

-- `errors.As(err, &serverErr)`.
unfoldable pub as_server : Err → Bool
as_server (server k m) = true
as_server (wrapped m e) = as_server e
as_server (usage e) = as_server e
as_server (ambiguous op key e) = as_server e
as_server (framed e) = as_server e
as_server _ = false

abbrev pub same_ctx : CtxErr → CtxErr → Bool
same_ctx canceled canceled = true
same_ctx canceled deadline_exceeded = false
same_ctx deadline_exceeded canceled = false
same_ctx deadline_exceeded deadline_exceeded = true

-- `errors.Is(err, ctxErr)` for a context's error.
unfoldable pub is_ctx : Err → CtxErr → Bool
is_ctx (context c) t = same_ctx c t
is_ctx (external timeout n) canceled = false
is_ctx (external timeout n) deadline_exceeded = timeout
is_ctx (wrapped m e) t = is_ctx e t
is_ctx (usage e) t = is_ctx e t
is_ctx (ambiguous op key e) t = is_ctx e t
is_ctx (framed e) t = is_ctx e t
is_ctx _ t = false

-- What a successful chain has passed.
pub bind-eq-ok {κ μ} :
    {V : Type κ} {U : Type μ} (first : Result V) (later : V → Result U) {u : U}
    → (first >>= later) ≡ ok u
    → (v : V) × (first ≡ ok v) × (later v ≡ ok u)
bind-eq-ok (ok v) later h = (v, refl, h)
bind-eq-ok (err e) later h = cc

pub refuse-eq-ok {ℓ} :
    {B : Type ℓ} (test : Bool) (e : Err) (k : Result B) {b : B}
    → (refuse_if test e >> k) ≡ ok b
    → (test ≡ false) × (k ≡ ok b)
refuse-eq-ok true e k h = cc
refuse-eq-ok false e k h = (refl, h)

-- What holds of a value holds of the value that a chain has brought.
pub ok-elim {ℓ κ} : {A : Type ℓ} (P : A → Type κ) {a b : A} → ok a ≡ ok b → P a → P b
ok-elim P {a} {b} h k = let same_ab : a ≡ b = cc in rw (← same_ab) k
