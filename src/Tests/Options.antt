-- ===== src/Tests/Options.antt =====
-- The routing and the policy of options.go at concrete inputs.
use go_memcache.Base.{
  ℕ, true, ◌≡◌, ◌↔◌, refl, List, [], ◌∷◌, some, none, Bytes, codes, ltb, if◌then◌else◌, get_elem?,
}
use go_memcache.Base.Int.{ℤ, pos}
use go_memcache.Options.{with_router, with_servers}
use go_memcache.Options.Router.{weight, rendezvous_pick}
use go_memcache.Options.Router.Highest.{
  weight_at, IsFirstHighest, rendezvous_pick-IsFirstHighest, rendezvous_pick-append,
}
use go_memcache.Errors.{Err}
use go_memcache.Base.{none}
use go_memcache.Client.{new_client, server}
use go_memcache.Client.Execute.{absorb}
use go_memcache.Client.Execute.Policy.{Chain, Stops, absorb_iff}
use go_memcache.Client.Routing.{server-selected, server-in_range}
use go_memcache.Tests.Fixtures.{degraded, broken, failing, start}

rendezvous_pick-IsFirstHighest_example :
    IsFirstHighest
      (codes "k")
      (codes "a" ∷ codes "b" ∷ [])
      (rendezvous_pick (codes "k") (codes "a" ∷ codes "b" ∷ []))
rendezvous_pick-IsFirstHighest_example =
    rendezvous_pick-IsFirstHighest (codes "k") (codes "a") (codes "b" ∷ [])

rendezvous_pick-append_example :
    rendezvous_pick (codes "k") (codes "a" ∷ codes "b" ∷ codes "c" ∷ []) ≡ (
      if ltb
        (weight_at
          (codes "k")
          (codes "a" ∷ codes "b" ∷ [])
          (rendezvous_pick (codes "k") (codes "a" ∷ codes "b" ∷ [])))
        (weight (codes "k") (codes "c"))
      then 2
      else rendezvous_pick (codes "k") (codes "a" ∷ codes "b" ∷ []))
rendezvous_pick-append_example =
    rendezvous_pick-append (codes "k") (codes "a") (codes "c") (codes "b" ∷ [])

absorb_iff_example :
    ((absorb (failing 0) degraded broken start).0 ≡ true)
    ↔ ((true ≡ true) × ((f : Err) → Chain broken f → ¬ Stops none f))
absorb_iff_example = absorb_iff (failing 0) degraded broken start

-- A router that swaps the two servers and picks the first.
abbrev swapping : Bytes → List Bytes → ℤ × List Bytes
swapping key servers = (pos 0, codes "b" ∷ codes "a" ∷ [])

server-selected_example :
    (j : ℕ) × (a : Bytes) × (pos 0 ≡ pos j)
    × (get_elem? (codes "b" ∷ codes "a" ∷ []) j ≡ some a)
    × (get_elem? (codes "a" ∷ codes "b" ∷ []) 1 ≡ some a)
unfolding new_client server
server-selected_example =
    server-selected (codes "a")
      (with_servers (codes "a" ∷ codes "b" ∷ []) ∷ with_router (some swapping) ∷ []) (codes "k")
      refl refl refl

server-in_range_example : (a : Bytes) × (get_elem? (codes "a" ∷ []) 0 ≡ some a)
unfolding new_client server rendezvous_pick
server-in_range_example = server-in_range (codes "a") [] (codes "k") refl refl
