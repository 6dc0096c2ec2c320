-- ===== src/Command/Get/Effects.antt =====
-- Which gets have a side effect, as the flags on the wire tell it.
use go_memcache.Base.{
  Bool, true, false, ◌&&◌, ◌||◌, List, [], ◌∷◌, ◌++◌, Option, none, some, ◌≡◌, refl, arith, Bytes,
  is_some, any, codes,
}
use go_memcache.Errors.{ok}
use go_memcache.Types.{MetaGetOptions}
use go_memcache.Wire.{MetaCommand}
use go_memcache.Command.Flags.{
  when, given, uint_flag, expiration_flag, is_effect_flag, command_has_side_effect, opaque_flags,
  append_opaque,
}
use go_memcache.Command.Get.{get_flags, build_get}

any-append :
    (xs ys : List Bytes)
    → any is_effect_flag (xs ++ ys) ≡ (any is_effect_flag xs || any is_effect_flag ys)
any-append [] ys = refl
any-append (x ∷ xs) ys = ground (arith, any-append xs ys)

-- The options that ask the server to change the item.
unfoldable pub asks_change : MetaGetOptions → Bool
asks_change o =
    is_some o.touch || is_some o.vivify_ttl || is_some o.refresh_before || is_some o.set_cas

any-when : (b : Bool) (flag : Bytes) → any is_effect_flag (when b flag) ≡ (b && is_effect_flag flag)
any-when true flag = ground arith
any-when false flag = refl

any-given {ℓ} :
    {A : Type ℓ} (f : A → Bytes) (t : Bool) (o : Option A)
    → ((a : A) → is_effect_flag (f a) ≡ t)
    → any is_effect_flag (given f o) ≡ (is_some o && t)
any-given f t none h = refl
any-given f t (some a) h = ground (arith, h a)

and_false : (b : Bool) → (b && false) ≡ false
and_false b = ground arith

and_true : (b : Bool) → (b && true) ≡ b
and_true b = ground arith

or_false : (b : Bool) → (b || false) ≡ b
or_false b = ground arith

any-get_flags : (o : MetaGetOptions) → any is_effect_flag (get_flags o) ≡ asks_change o
unfolding get_flags asks_change is_effect_flag uint_flag expiration_flag
any-get_flags o =
    simp
      (
        any-append,
        any-when,
        any-given (expiration_flag b'T') true o.touch (λ e. refl),
        any-given (expiration_flag b'N') true o.vivify_ttl (λ e. refl),
        any-given (expiration_flag b'R') true o.refresh_before (λ e. refl),
        any-given (uint_flag b'C') false o.unless_cas (λ e. refl),
        any-given (uint_flag b'E') true o.set_cas (λ e. refl),
        and_false,
        and_true,
        or_false,
      )
      (ground arith)

any-opaque_flags : (opaque : Bytes) → any is_effect_flag (opaque_flags opaque) ≡ false
unfolding is_effect_flag opaque_flags
any-opaque_flags [] = refl
any-opaque_flags (c ∷ token) = refl

-- What a command of the builder holds.
build_get-flags :
    (key : Bytes) (o : MetaGetOptions) {m : MetaCommand}
    → build_get key o ≡ ok m
    → (m.command ≡ codes "mg") × (m.flags ≡ get_flags o ++ opaque_flags o.opaque)
unfolding build_get append_opaque
build_get-flags key o h = ground arith

-- A get that the builder accepts counts as a side effect exactly when its options touch the item,
-- vivify it, ask for an early refresh or set its CAS; in particular no opaque token and no
-- requested field makes a read look like a write.
pub side_effect-build_get :
    (key : Bytes) (o : MetaGetOptions) {m : MetaCommand}
    → build_get key o ≡ ok m
    → command_has_side_effect m ≡ asks_change o
unfolding command_has_side_effect
side_effect-build_get key o {m} h =
    let (command, flags) = build_get-flags key o h in
    rw (command, flags) (simp (any-append, any-get_flags, any-opaque_flags, or_false))
