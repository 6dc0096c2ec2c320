-- ===== src/Client.antt =====
-- `Client`, `New`, `NewServers` and `server` of client.go. A pool is named by its index, which is
-- also the index of its address.
pub mod State
pub mod Prepare
pub mod Execute
pub mod Routing
use go_memcache.Base.{
  ℕ, ◌+◌, Bool, true, false, ◌||◌, List, [], ◌∷◌, Option, none, some, Bytes, same, any, ltb,
  if◌then◌else◌, length, get_elem?,
}
use go_memcache.Base.Int.{ℤ, pos, negsuc}
use go_memcache.Errors.{
  plain, Result, ok, err, ◌>>=◌, ◌>>◌, refuse_if, network_empty, no_servers, server_empty,
  server_duplicate, router_index, router_address,
}
use go_memcache.Options.{Config, default_config, ClientOption, with_servers, apply_option}

pub record Client : Type 0 where
  pub config : Config
  pub addresses : List Bytes
  pub server_indexes : List (Bytes × ℕ)

unfoldable pub apply_options : List ClientOption → Config → Result Config
unfolding apply_option
apply_options [] c = ok c
apply_options (o ∷ os) c = do c' ← apply_option o c; apply_options os c'

unfoldable pub is_nil : Bytes → Bool
is_nil [] = true
is_nil (c ∷ s) = false

-- The loop over the addresses from index `i`: each with its index, unless one is refused.
unfoldable pub index_servers : List Bytes → ℕ → List Bytes → Result (List (Bytes × ℕ))
unfolding is_nil
index_servers seen i [] = ok []
index_servers seen i (address ∷ rest) = do
  refuse_if (is_nil address) (plain server_empty)
  refuse_if (any (same address) seen) (plain server_duplicate)
  later ← index_servers (address ∷ seen) (i + 1) rest
  ok ((address, i) ∷ later)

unfoldable pub no_server : List Bytes → Bool
no_server [] = true
no_server (s ∷ l) = false

-- `New`.
unfoldable pub new_client : Bytes → List ClientOption → Result Client
unfolding apply_options index_servers no_server is_nil default_config
new_client server options = do
  config ← apply_options options (default_config server)
  refuse_if (is_nil config.network) (plain network_empty)
  refuse_if (no_server config.servers) (plain no_servers)
  indexes ← index_servers [] 0 config.servers
  ok (record {
    config = config;
    addresses = config.servers;
    server_indexes = if config.copy_servers_for_router then indexes else [];
  })

-- `NewServers`.
unfoldable pub new_servers : List Bytes → List ClientOption → Result Client
unfolding new_client
new_servers [] options = err (plain no_servers)
new_servers (s ∷ servers) options = new_client s (with_servers (s ∷ servers) ∷ options)

-- An index that `Pick` returned, if it is in range.
unfoldable pub in_range : ℤ → ℕ → Option ℕ
in_range (negsuc i) n = none
in_range (pos i) n = if ltb i n then some i else none

unfoldable pub lookup_address : Bytes → List (Bytes × ℕ) → Option ℕ
lookup_address a [] = none
lookup_address a ((b, i) ∷ l) = if same b a then some i else lookup_address a l

abbrev pub or_refuse {ℓ} : {A : Type ℓ} → Option A → Result A → Result A
or_refuse none e = e
or_refuse (some a) e = ok a

-- `c.server(key)`. A custom router gets a copy of the addresses, and its answer is an index into
-- that copy as it left it.
unfoldable pub server : Client → Bytes → Result ℕ
unfolding in_range lookup_address
server c key =
    let (index, reordered) = c.config.router key c.config.servers in
    if c.config.copy_servers_for_router
    then (do
      i ← or_refuse (in_range index (length c.config.servers)) (err (plain router_index))
      address ← or_refuse (get_elem? reordered i) (err (plain router_index))
      or_refuse (lookup_address address c.server_indexes) (err (plain router_address)))
    else or_refuse (in_range index (length c.addresses)) (err (plain router_index))
