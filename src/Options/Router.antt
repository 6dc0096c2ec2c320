-- ===== src/Options/Router.antt =====
-- `RendezvousRouter` of options.go, over `hash/fnv`'s FNV-1a of 64 bits.
pub mod Highest
use Prim.Native.Nat.{bit_xor}
use go_memcache.Base.{
  ℕ, ◌+◌, ◌*◌, ◌%◌, ◌^◌, Bool, ◌||◌, List, [], ◌∷◌, ◌++◌, Bytes, ltb, ◌==◌, if◌then◌else◌,
}
use go_memcache.Base.Int.{ℤ}

-- `Router.Pick`: the index, which may be out of range, and the list as the router leaves it.
abbrev pub Pick : Type 0
Pick = Bytes → List Bytes → ℤ × List Bytes

-- `hash.Write` over the bytes, from a state.
unfoldable pub fnv_write : ℕ → Bytes → ℕ
fnv_write h [] = h
fnv_write h (c ∷ s) = fnv_write (bit_xor h c * 1099511628211 % 2 ^ 64) s

-- The weight of a server for a key: the sum of key, zero byte and address.
unfoldable pub weight : Bytes → Bytes → ℕ
unfolding fnv_write
weight key server = fnv_write (fnv_write (fnv_write 14695981039346656037 key) (0 ∷ [])) server

-- The loop of `Pick` at index `i`.
unfoldable pub pick_from : Bytes → ℕ → ℕ → ℕ → List Bytes → ℕ
pick_from key i best best_hash [] = best
pick_from key i best best_hash (server ∷ servers) =
    let sum = weight key server in
    let better = i == 0 || ltb best_hash sum in
    pick_from key (i + 1) (if better then i else best) (if better then sum else best_hash) servers

unfoldable pub rendezvous_pick : Bytes → List Bytes → ℕ
unfolding pick_from
rendezvous_pick key servers = pick_from key 0 0 0 servers
