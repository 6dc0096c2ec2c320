-- ===== src/Client/Prepare.antt =====
-- `executeMeta` of client.go up to the exchange: the checks, the framing and the routing.
use go_memcache.Base.{ℕ, ◌&&◌, Bytes, codes, same, any, ltb, length}
use go_memcache.Errors.{
  plain, usage, Result, ok, err, ◌>>=◌, ◌>>◌, quiet_needs_batch, value_too_large, refuse_if,
}
use go_memcache.Wire.{MetaCommand, marshal}
use go_memcache.Client.{Client, server}

-- Every error of these steps is wrapped as a usage error.
unfoldable pub as_usage_error {ℓ} : {A : Type ℓ} → Result A → Result A
as_usage_error (ok a) = ok a
as_usage_error (err e) = err (usage e)

unfoldable pub prepare_meta : Client → MetaCommand → Result (Bytes × ℕ)
unfolding as_usage_error
prepare_meta c m = as_usage_error (do
  refuse_if (any (λ flag. same flag (codes "q")) m.flags) (plain quiet_needs_batch)
  refuse_if
      (m.has_value && ltb 0 c.config.max_item_size && ltb c.config.max_item_size (length m.value))
      (plain value_too_large)
  payload ← marshal m
  pool ← server c m.key
  ok (payload, pool))
