-- ===== src/Command/Accepted.antt =====
-- The builders of client.go, and the commands that `marshal` of wire.go takes.
use mathlib.Core.Bool.{xor}
use go_memcache.Base.{◌≡◌, refl, true, false, not, ◌&&◌, List, [], Bytes, codes, same, is_some}
use go_memcache.Base.Int.{is_nonzero}
use go_memcache.Errors.{
  plain, ok, ◌>>=◌, bind-eq-ok, refuse-eq-ok, ok-elim, unless_cas_needs_value, metadata_refresh,
  vivify_not_positive, refresh_not_positive, stale_for_needs_invalidate, initial_with_ttl,
  initial_ttl_not_positive, ttl_ignored, vivify_only_concat, add_compares_cas, invalidate_needs_cas,
}
use go_memcache.Types.{MetaGetOptions, MetaSetOptions, MetaDeleteOptions, MetaArithmeticOptions}
use go_memcache.Wire.{MetaCommand, is_supported}
use go_memcache.Wire.Accepts.{IsBuilt}
use go_memcache.Command.Flags.{not_positive, append_opaque}
use go_memcache.Command.Get.{get_flags, build_get}
use go_memcache.Command.Set.{mode_flag, is_concat, is_add, set_flags, build_set}
use go_memcache.Command.Delete.{delete_flags, build_delete}
use go_memcache.Command.Arithmetic.{arithmetic_flags, build_arithmetic}
use go_memcache.Command.Tokens.{
  AreTokens, get_flags-AreTokens, delete_flags-AreTokens, arithmetic_flags-AreTokens,
  set_flags-AreTokens, mode_flag-AreTokens, append_opaque-AreTokens, IsBuilt-plain,
}

-- A command of the key that `marshal` takes.
pub record IsBuiltFor (key : Bytes) (m : MetaCommand) : Type 0 where
  pub same_key : m.key ≡ key
  pub built : IsBuilt m

-- The end of a builder with no value, behind its tests.
plain-IsBuiltFor :
    (command key : Bytes) (flags : List Bytes) (opaque : Bytes) {m : MetaCommand}
    → is_supported command ≡ true
    → same command (codes "ms") ≡ false
    → same command (codes "me") ≡ false
    → AreTokens flags
    → (append_opaque flags opaque >>= λ all_flags.
        ok (record {
          command = command;
          key = key;
          flags = all_flags;
          value = [];
          has_value = false;
        }))
      ≡ ok m
    → IsBuiltFor key m
plain-IsBuiltFor command key flags opaque s v d tokens h =
    let (all_flags, appended, last) = bind-eq-ok (append_opaque flags opaque) _ h in
    ok-elim (IsBuiltFor key) last (record {
      same_key = refl;
      built =
          IsBuilt-plain command key all_flags s v d
            (append_opaque-AreTokens flags opaque tokens appended);
    })

pub build_get-IsBuiltFor :
    (key : Bytes) (o : MetaGetOptions) {m : MetaCommand} → build_get key o ≡ ok m → IsBuiltFor key m
unfolding build_get is_supported
build_get-IsBuiltFor key o h =
    let (_, h1) =
      refuse-eq-ok (is_some o.unless_cas && o.metadata_only) (plain unless_cas_needs_value) _ h in
    let (_, h2) =
      refuse-eq-ok (o.metadata_only && is_some o.vivify_ttl && is_some o.refresh_before)
        (plain metadata_refresh) _ h1 in
    let (_, h3) = refuse-eq-ok (not_positive o.vivify_ttl) (plain vivify_not_positive) _ h2 in
    let (_, h4) = refuse-eq-ok (not_positive o.refresh_before) (plain refresh_not_positive) _ h3 in
    plain-IsBuiltFor (codes "mg") key (get_flags o) o.opaque refl refl refl (get_flags-AreTokens o)
      h4

pub build_delete-IsBuiltFor :
    (key : Bytes) (o : MetaDeleteOptions) {m : MetaCommand}
    → build_delete key o ≡ ok m
    → IsBuiltFor key m
unfolding build_delete is_supported
build_delete-IsBuiltFor key o h =
    plain-IsBuiltFor (codes "md") key (delete_flags o) o.opaque refl refl refl
      (delete_flags-AreTokens o)
      (refuse-eq-ok (is_some o.stale_for && not o.invalidate) (plain stale_for_needs_invalidate) _
        h).1

pub build_arithmetic-IsBuiltFor :
    (key : Bytes) (o : MetaArithmeticOptions) {m : MetaCommand}
    → build_arithmetic key o ≡ ok m
    → IsBuiltFor key m
unfolding build_arithmetic is_supported
build_arithmetic-IsBuiltFor key o h =
    let (_, h1) =
      refuse-eq-ok (xor (not (is_some o.initial)) (not (is_some o.initial_ttl)))
        (plain initial_with_ttl) _ h in
    plain-IsBuiltFor (codes "ma") key (arithmetic_flags o) o.opaque refl refl refl
      (arithmetic_flags-AreTokens o)
      (refuse-eq-ok (not_positive o.initial_ttl) (plain initial_ttl_not_positive) _ h1).1

pub build_set-IsBuiltFor :
    (key value : Bytes) (o : MetaSetOptions) {m : MetaCommand}
    → build_set key value o ≡ ok m
    → IsBuiltFor key m
unfolding build_set is_supported
build_set-IsBuiltFor key value o h =
    let (mode, moded, h0) = bind-eq-ok (mode_flag o.mode) _ h in
    let (_, h1) = refuse-eq-ok (is_concat o.mode && is_nonzero o.ttl) (plain ttl_ignored) _ h0 in
    let (_, h2) =
      refuse-eq-ok (not (is_concat o.mode) && is_some o.vivify_ttl) (plain vivify_only_concat) _
        h1 in
    let (_, h3) =
      refuse-eq-ok (is_add o.mode && is_some o.compare_cas) (plain add_compares_cas) _ h2 in
    let (_, h4) =
      refuse-eq-ok (o.invalidate && not (is_some o.compare_cas)) (plain invalidate_needs_cas) _
        h3 in
    let (_, h5) = refuse-eq-ok (not_positive o.vivify_ttl) (plain vivify_not_positive) _ h4 in
    let (all_flags, appended, last) = bind-eq-ok (append_opaque (set_flags o mode) o.opaque) _ h5 in
    let tokens =
      append_opaque-AreTokens (set_flags o mode) o.opaque
        (set_flags-AreTokens o mode (mode_flag-AreTokens o.mode moded)) appended in
    ok-elim (IsBuiltFor key) last (record {
      same_key = refl;
      built = record {
        supported = refl;
        value_with_ms = refl;
        no_debug = refl;
        tokens = tokens.all;
      };
    })
