-- ===== src/Options.antt =====
-- options.go: the configuration, the options that change it, and `resolveTTL`. A function that the
-- program only stores (a dialer, a codec, a hook) is a number that names it; `none` is nil.
pub mod Router
use go_memcache.Base.{
  ℕ, ◌*◌, Bool, true, false, not, List, [], ◌∷◌, Option, none, some, Bytes, codes, if◌then◌else◌,
}
use go_memcache.Base.Int.{ℤ, pos, is_positive, is_negative}
use go_memcache.Errors.{
  plain, Result, ok, err, ◌>>=◌, ◌>>◌, refuse_if, ttl_negative, refresh_ahead_not_positive,
  nil_codec, nil_hook, nil_router, nil_dialer, timeout_negative, dial_timeout_negative,
  idle_timeout_negative, max_conns_too_small, max_item_size_negative, nil_option, nil_option_new,
}
use go_memcache.Types.{Seconds}
use go_memcache.Types.Expiration.{second, expires_in}
use Router.{Pick, rendezvous_pick}

-- Nanoseconds.
abbrev pub Duration : Type 0
Duration = ℤ

pub record Config : Type 0 where
  pub servers : List Bytes
  pub network : Bytes
  pub dial : ℕ
  pub dial_timeout : Duration
  pub io_timeout : Duration
  pub idle_timeout : Duration
  pub max_conns : ℕ
  pub max_item_size : ℕ
  pub router : Pick
  pub copy_servers_for_router : Bool
  pub codec : ℕ
  pub default_refresh_ahead : Option Duration
  pub degrade : Bool
  pub on_error : Option ℕ

-- The default dialer and `JSONCodec` have the number 0.
unfoldable pub default_config : Bytes → Config
default_config server = record {
  servers = server ∷ [];
  network = codes "tcp";
  dial = 0;
  dial_timeout = pos second;
  io_timeout = pos second;
  idle_timeout = pos (90 * second);
  max_conns = 1;
  max_item_size = 1024 * 1024;
  router = λ key servers. (pos (rendezvous_pick key servers), servers);
  copy_servers_for_router = false;
  codec = 0;
  default_refresh_ahead = none;
  degrade = false;
  on_error = none;
}

-- The values that implement `Option`; `no_option` is a nil interface.
pub data ClientOption : Type 0 where
  no_option : ClientOption
  with_router : Option Pick → ClientOption
  with_servers : List Bytes → ClientOption
  with_network : Bytes → ClientOption
  with_dialer : Option ℕ → ClientOption
  with_timeout with_dial_timeout with_idle_timeout : Duration → ClientOption
  with_max_conns with_max_item_size : ℤ → ClientOption
  with_codec : Option ℕ → ClientOption
  refresh_ahead : Duration → ClientOption
  degrade : Bool → ClientOption
  on_error : Option ℕ → ClientOption

abbrev to_ℕ : ℤ → ℕ
to_ℕ (pos n) = n
to_ℕ _ = 0

-- `codecOption.applyOption` of codec.go.
abbrev pub apply_codec : Option ℕ → Config → Result Config
apply_codec none c = err (plain nil_codec)
apply_codec (some n) c = ok (record c { codec = n })

-- `refreshAheadOption.applyOption`.
abbrev pub apply_refresh_ahead : Duration → Config → Result Config
apply_refresh_ahead d c =
    if not (is_positive d)
    then err (plain refresh_ahead_not_positive)
    else ok (record c { default_refresh_ahead = some d })

-- `degradeOption.applyOption`.
abbrev pub apply_degrade : Bool → Config → Result Config
apply_degrade b c = ok (record c { degrade = b })

-- `onErrorOption.applyOption`.
abbrev pub apply_on_error : Option ℕ → Config → Result Config
apply_on_error none c = err (plain nil_hook)
apply_on_error (some h) c = ok (record c { on_error = some h })

-- `option.applyOption(&cfg)`, behind the nil test of `New`.
unfoldable pub apply_option : ClientOption → Config → Result Config
apply_option no_option c = err (plain nil_option_new)
apply_option (with_router none) c = err (plain nil_router)
apply_option (with_router (some r)) c = ok (record c { router = r; copy_servers_for_router = true })
apply_option (with_servers servers) c = ok (record c { servers = servers })
apply_option (with_network network) c = ok (record c { network = network })
apply_option (with_dialer none) c = err (plain nil_dialer)
apply_option (with_dialer (some d)) c = ok (record c { dial = d })
apply_option (with_timeout d) c =
    if is_negative d then err (plain timeout_negative) else ok (record c { io_timeout = d })
apply_option (with_dial_timeout d) c =
    if is_negative d then err (plain dial_timeout_negative) else ok (record c { dial_timeout = d })
apply_option (with_idle_timeout d) c =
    if is_negative d then err (plain idle_timeout_negative) else ok (record c { idle_timeout = d })
apply_option (with_max_conns n) c =
    if not (is_positive n)
    then err (plain max_conns_too_small)
    else ok (record c { max_conns = to_ℕ n })
apply_option (with_max_item_size n) c =
    if is_negative n
    then err (plain max_item_size_negative)
    else ok (record c { max_item_size = to_ℕ n })
apply_option (with_codec codec) c = apply_codec codec c
apply_option (refresh_ahead d) c = apply_refresh_ahead d c
apply_option (degrade b) c = apply_degrade b c
apply_option (on_error hook) c = apply_on_error hook c

-- `callPolicy`: per-call options over the defaults of `New`.
pub record CallPolicy : Type 0 where
  pub refresh_ahead : Option Duration
  pub touch : Option Duration

unfoldable pub call_policy : Config → CallPolicy
call_policy c = record { refresh_ahead = c.default_refresh_ahead; touch = none }

-- A `GetOption`, which is always a touch, or nil.
unfoldable pub apply_gets : List (Option Duration) → CallPolicy → Result CallPolicy
apply_gets [] p = ok p
apply_gets (none ∷ os) p = err nil_option
apply_gets (some d ∷ os) p = apply_gets os (record p { touch = some d })

-- A `FetchOption`, which is always a refresh window, or nil.
unfoldable pub apply_fetches : List (Option Duration) → CallPolicy → Result CallPolicy
apply_fetches [] p = ok p
apply_fetches (none ∷ os) p = err nil_option
apply_fetches (some d ∷ os) p = apply_fetches os (record p { refresh_ahead = some d })

-- `resolveTTL(ttl)`, at a moment when `time.Now()` is `now`.
unfoldable pub resolve_ttl : ℕ → Duration → Result Seconds
resolve_ttl now ttl = do refuse_if (is_negative ttl) (plain ttl_negative); ok (expires_in now ttl)
