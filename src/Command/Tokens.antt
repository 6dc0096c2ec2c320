-- ===== src/Command/Tokens.antt =====
-- The flags of the builders of client.go, and when they can be framed.
use mathlib.Core.List.{cons-ne-nil}
use go_memcache.Base.{
  ℕ, suc, ◌≡◌, refl, sym, arith, Bool, true, false, List, [], ◌∷◌, ◌++◌, Option, none, some, Bytes,
  codes, same, All, All-append, if◌then◌else◌, Bool-cases, inl, inr,
}
use go_memcache.Base.Int.{pos, negsuc, is_nonzero}
use go_memcache.Errors.{ok, bind-eq-ok, ok-elim}
use go_memcache.Std.Decimal.{format_uint, format_int}
use go_memcache.Types.{
  Seconds, StoreMode, mode_set, mode_add, mode_replace, mode_append, mode_prepend, other,
  MetaGetOptions, MetaSetOptions, MetaDeleteOptions, MetaArithmeticOptions,
}
use go_memcache.Wire.Char.{is_control}
use go_memcache.Wire.Token.{IsToken}
use go_memcache.Wire.CommandLine.{format_uint-IsToken}
use go_memcache.Wire.Accepts.{IsBuilt}
use go_memcache.Wire.{validate_opaque, is_supported}
use go_memcache.Command.Flags.{when, given, uint_flag, expiration_flag, opaque_flags, append_opaque}
use go_memcache.Command.Get.{get_flags}
use go_memcache.Command.Set.{mode_flag, set_flags}
use go_memcache.Command.Delete.{delete_flags}
use go_memcache.Command.Arithmetic.{arithmetic_flags}

-- A letter in front of a token.
IsToken-cons : (c : ℕ) (s : Bytes) → is_control c ≡ false → IsToken s → IsToken (c ∷ s)
IsToken-cons c s h t = (ground (arith, t.0), cons-ne-nil c s)

format_int-IsToken : (i : Seconds) → IsToken (format_int i)
unfolding format_int is_control
format_int-IsToken (pos n) = format_uint-IsToken n
format_int-IsToken (negsuc n) =
    IsToken-cons b'-' (format_uint (suc n)) refl (format_uint-IsToken (suc n))

uint_flag-IsToken : (letter n : ℕ) → is_control letter ≡ false → IsToken (uint_flag letter n)
unfolding uint_flag
uint_flag-IsToken letter n h = IsToken-cons letter (format_uint n) h (format_uint-IsToken n)

expiration_flag-IsToken :
    (letter : ℕ) (e : Seconds) → is_control letter ≡ false → IsToken (expiration_flag letter e)
unfolding expiration_flag
expiration_flag-IsToken letter e h = IsToken-cons letter (format_int e) h (format_int-IsToken e)

-- All flags of the list are tokens.
pub record AreTokens (flags : List Bytes) : Type 0 where
  pub all : All IsToken flags

when-AreTokens : (b : Bool) (flag : Bytes) → IsToken flag → AreTokens (when b flag)
when-AreTokens true flag h = record { all = (h, tt) }
when-AreTokens false flag h = record { all = tt }

-- A flag of one letter.
letter-AreTokens : (b : Bool) (c : ℕ) → is_control c ≡ false → AreTokens (when b (c ∷ []))
letter-AreTokens b c h = when-AreTokens b (c ∷ []) (rw h refl, cons-ne-nil c [])

uint-AreTokens :
    (letter : ℕ) (o : Option ℕ) → is_control letter ≡ false → AreTokens (given (uint_flag letter) o)
uint-AreTokens letter none h = record { all = tt }
uint-AreTokens letter (some n) h = record { all = (uint_flag-IsToken letter n h, tt) }

expiration-AreTokens :
    (letter : ℕ) (o : Option Seconds)
    → is_control letter ≡ false
    → AreTokens (given (expiration_flag letter) o)
expiration-AreTokens letter none h = record { all = tt }
expiration-AreTokens letter (some e) h = record { all = (expiration_flag-IsToken letter e h, tt) }

infixr 5 ◌+++◌
◌+++◌ : {xs ys : List Bytes} → AreTokens xs → AreTokens ys → AreTokens (xs ++ ys)
◌+++◌ {xs} {ys} h k = record { all = All-append IsToken xs ys h.all k.all }

pub get_flags-AreTokens : (o : MetaGetOptions) → AreTokens (get_flags o)
unfolding get_flags is_control
get_flags-AreTokens o =
    letter-AreTokens _ b'v' refl
    +++ letter-AreTokens _ b'c' refl
    +++ letter-AreTokens _ b'f' refl
    +++ letter-AreTokens _ b't' refl
    +++ letter-AreTokens _ b's' refl
    +++ letter-AreTokens _ b'l' refl
    +++ letter-AreTokens _ b'h' refl
    +++ letter-AreTokens _ b'k' refl
    +++ letter-AreTokens _ b'u' refl
    +++ expiration-AreTokens b'T' o.touch refl
    +++ expiration-AreTokens b'N' o.vivify_ttl refl
    +++ expiration-AreTokens b'R' o.refresh_before refl
    +++ uint-AreTokens b'C' o.unless_cas refl
    +++ uint-AreTokens b'E' o.set_cas refl

pub delete_flags-AreTokens : (o : MetaDeleteOptions) → AreTokens (delete_flags o)
unfolding delete_flags is_control
delete_flags-AreTokens o =
    uint-AreTokens b'C' o.compare_cas refl
    +++ uint-AreTokens b'E' o.set_cas refl
    +++ letter-AreTokens _ b'I' refl
    +++ expiration-AreTokens b'T' o.stale_for refl
    +++ letter-AreTokens _ b'x' refl
    +++ letter-AreTokens _ b'k' refl

-- A token in front of others.
AreTokens-cons :
    {flag : Bytes} {flags : List Bytes} → IsToken flag → AreTokens flags → AreTokens (flag ∷ flags)
AreTokens-cons h k = record { all = (h, k.all) }

pub arithmetic_flags-AreTokens : (o : MetaArithmeticOptions) → AreTokens (arithmetic_flags o)
unfolding arithmetic_flags is_control
arithmetic_flags-AreTokens o = AreTokens-cons (uint_flag-IsToken b'D' o.delta refl) (
    when-AreTokens o.decrement (codes "MD") (refl, cons-ne-nil b'M' (codes "D"))
    +++ uint-AreTokens b'J' o.initial refl
    +++ expiration-AreTokens b'N' o.initial_ttl refl
    +++ expiration-AreTokens b'T' o.touch refl
    +++ uint-AreTokens b'C' o.compare_cas refl
    +++ uint-AreTokens b'E' o.set_cas refl
    +++ letter-AreTokens _ b'v' refl
    +++ letter-AreTokens _ b't' refl
    +++ letter-AreTokens _ b'c' refl
    +++ letter-AreTokens _ b'k' refl)

ttl-AreTokens : (e : Seconds) → AreTokens (if is_nonzero e then expiration_flag b'T' e ∷ [] else [])
unfolding is_control
ttl-AreTokens e = elim (Bool-cases (is_nonzero e)) [
  | inl h ↦ rw h (record { all = (expiration_flag-IsToken b'T' e refl, tt) })
  | inr h ↦ rw h (record { all = tt })
]

pub set_flags-AreTokens :
    (o : MetaSetOptions) (mode : List Bytes) → AreTokens mode → AreTokens (set_flags o mode)
unfolding set_flags is_control
set_flags-AreTokens o mode h = AreTokens-cons (uint_flag-IsToken b'F' o.client_flags refl) (
    ttl-AreTokens o.ttl
    +++ h
    +++ uint-AreTokens b'C' o.compare_cas refl
    +++ uint-AreTokens b'E' o.set_cas refl
    +++ letter-AreTokens _ b'I' refl
    +++ expiration-AreTokens b'N' o.vivify_ttl refl
    +++ letter-AreTokens _ b'c' refl
    +++ letter-AreTokens _ b's' refl
    +++ letter-AreTokens _ b'k' refl)

pub mode_flag-AreTokens :
    (mode : StoreMode) {flags : List Bytes} → mode_flag mode ≡ ok flags → AreTokens flags
unfolding mode_flag is_control
mode_flag-AreTokens mode_set h = ok-elim AreTokens h (record { all = tt })
mode_flag-AreTokens mode_add h =
    ok-elim AreTokens h (record { all = ((refl, cons-ne-nil _ _), tt) })
mode_flag-AreTokens mode_replace h =
    ok-elim AreTokens h (record { all = ((refl, cons-ne-nil _ _), tt) })
mode_flag-AreTokens mode_append h =
    ok-elim AreTokens h (record { all = ((refl, cons-ne-nil _ _), tt) })
mode_flag-AreTokens mode_prepend h =
    ok-elim AreTokens h (record { all = ((refl, cons-ne-nil _ _), tt) })
mode_flag-AreTokens (other n) h = cc

opaque_flags-AreTokens :
    (opaque : Bytes) → validate_opaque opaque ≡ ok tt → AreTokens (opaque_flags opaque)
unfolding validate_opaque opaque_flags is_control
opaque_flags-AreTokens [] h = record { all = tt }
opaque_flags-AreTokens (c ∷ opaque) h = record {
  all = (IsToken-cons b'O' (c ∷ opaque) refl (ground arith, cons-ne-nil c opaque), tt);
}

pub append_opaque-AreTokens :
    (flags : List Bytes) (opaque : Bytes) {all_flags : List Bytes}
    → AreTokens flags
    → append_opaque flags opaque ≡ ok all_flags
    → AreTokens all_flags
unfolding append_opaque
append_opaque-AreTokens flags opaque h k =
    let (_, valid, last) = bind-eq-ok (validate_opaque opaque) _ k in
    ok-elim AreTokens last (h +++ opaque_flags-AreTokens opaque valid)

-- A command of a builder with no value.
pub IsBuilt-plain :
    (command key : Bytes) (flags : List Bytes)
    → is_supported command ≡ true
    → same command (codes "ms") ≡ false
    → same command (codes "me") ≡ false
    → AreTokens flags
    → IsBuilt
        (record { command = command; key = key; flags = flags; value = []; has_value = false })
IsBuilt-plain command key flags s v d h = record {
  supported = s;
  value_with_ms = sym v;
  no_debug = d;
  tokens = h.all;
}
