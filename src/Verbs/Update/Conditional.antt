-- ===== src/Verbs/Update/Conditional.antt =====
-- The writes of `update` of update.go.
use go_memcache.Base.{
  ℕ, Bool, true, ◌||◌, ◌≡◌, refl, arith, List, [], ◌∷◌, ◌++◌, Option, none, some, Bytes, codes,
  same, same_refl, Bool-cases, inl, inr, any, ◌≢◌, ◌⊎◌, is_some, if◌then◌else◌,
}
use go_memcache.Base.Int.{is_nonzero}
use go_memcache.Errors.{ok}
use go_memcache.Types.{Seconds, GetStatus, GetResult, mode_set, mode_add, no_set_options, is_hit}
use go_memcache.Wire
use go_memcache.Wire.{MetaCommand}
use go_memcache.Std.Decimal.{format_uint}
use go_memcache.Command.Flags.{uint_flag, append_opaque, opaque_flags, not_positive}
use go_memcache.Command.Set.{mode_flag, is_concat, is_add, set_flags, build_set}
use go_memcache.Verbs.Update.{compare_of, write_options}

-- The flag by which memcached stores only on the CAS.
abbrev pub condition_flag : Option ℕ → Bytes
condition_flag (some cas) = b'C' ∷ format_uint cas
condition_flag none = codes "ME"

abbrev is_flag : Option ℕ → Bytes → Bool
is_flag cas flag = same flag (condition_flag cas)

any-append : (p : Bytes → Bool) (xs ys : List Bytes) → any p (xs ++ ys) ≡ (any p xs || any p ys)
any-append p [] ys = refl
any-append p (x ∷ xs) ys = ground (arith, any-append p xs ys)

build_set-write_options :
    (key next : Bytes) (expiration : Seconds) (cas : Option ℕ)
    → (m : MetaCommand) × (build_set key next (write_options expiration cas) ≡ ok m)
      × (any (is_flag cas) m.flags ≡ true)
unfolding build_set write_options mode_flag is_concat is_add append_opaque not_positive opaque_flags
    set_flags uint_flag Wire.validate_opaque
build_set-write_options key next expiration none = (
  _,
  refl,
  elim (Bool-cases (is_nonzero expiration)) [
    | inl e ↦ rw e (ground arith)
    | inr e ↦ rw e (ground arith)
  ],
)
build_set-write_options key next expiration (some cas) = (
  _,
  refl,
  elim (Bool-cases (is_nonzero expiration)) [
    | inl e ↦ rw e (ground (arith, same_refl (format_uint cas)))
    | inr e ↦ rw e (ground (arith, same_refl (format_uint cas)))
  ],
)

-- The condition that a read asks of the write behind it: the CAS of a hit, or else that the key is
-- absent.
pub data Condition (r : GetResult) : Option ℕ → Type 0 where
  versioned :
      (cas : ℕ) → r.status ≡ GetStatus.hit → r.metadata.cas ≡ some cas → Condition r (some cas)
  absent : (r.status ≢ GetStatus.hit) ⊎ (r.metadata.cas ≡ none) → Condition r none

-- The write of `bytes` behind a read: its options, and the flag that the server sees.
pub record IsWrite (key bytes : Bytes) (expiration : Seconds) (r : GetResult) (m : MetaCommand)
    : Type 0 where
  pub cas : Option ℕ
  pub condition : Condition r cas
  pub built :
      build_set key bytes (record no_set_options {
        ttl = expiration;
        compare_cas = cas;
        mode = if is_some cas then mode_set else mode_add;
      })
      ≡ ok m
  pub flagged : any (λ flag. same flag (condition_flag cas)) m.flags ≡ true

-- The CAS that a hit gives is the one that is compared.
compare_of-Condition : (r : GetResult) → Condition r (compare_of r)
unfolding compare_of is_hit
compare_of-Condition r = go r.status r.metadata.cas refl refl
  where
    go :
        (status : GetStatus) (cas : Option ℕ)
        → r.status ≡ status
        → r.metadata.cas ≡ cas
        → Condition r (if is_hit status then cas else none)
    go GetStatus.hit (some cas) e k = versioned cas e k
    go GetStatus.hit none e k = absent (inr k)
    go GetStatus.unknown cas e k = absent (inl (λ h. cc))
    go GetStatus.miss cas e k = absent (inl (λ h. cc))
    go GetStatus.pending cas e k = absent (inl (λ h. cc))
    go GetStatus.unchanged cas e k = absent (inl (λ h. cc))

write_options-IsWrite :
    (key next : Bytes) (expiration : Seconds) (r : GetResult) (cas : Option ℕ) (m : MetaCommand)
    → Condition r cas
    → build_set key next (write_options expiration cas) ≡ ok m
    → any (is_flag cas) m.flags ≡ true
    → IsWrite key next expiration r m
unfolding write_options
write_options-IsWrite key next expiration r none m d h k = record {
  cas = none;
  condition = d;
  built = h;
  flagged = k;
}
write_options-IsWrite key next expiration r (some cas) m d h k = record {
  cas = some cas;
  condition = d;
  built = h;
  flagged = k;
}

-- The write of an attempt always builds, and it carries the condition of the read: after a hit with
-- a CAS, that very CAS, in the options and as the `C` flag that is sent, and an unconditional mode;
-- after a hit without one, or no hit, the mode and the flag that store only if the key is absent.
pub write_options-conditional :
    (key next : Bytes) (expiration : Seconds) (r : GetResult)
    → (m : MetaCommand) × (build_set key next (write_options expiration (compare_of r)) ≡ ok m)
      × IsWrite key next expiration r m
write_options-conditional key next expiration r =
    let (m, h, k) = build_set-write_options key next expiration (compare_of r) in
    (
      m,
      h,
      write_options-IsWrite key next expiration r (compare_of r) m (compare_of-Condition r) h k,
    )
