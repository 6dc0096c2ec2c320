-- ===== src/Fetch/Turns.antt =====
-- What a `Fetch` may do with a read.
use go_memcache.Base.{ℕ, ◌≡◌, ◌≢◌, refl, true, false, Bool-cases, inl, inr, Option, none, some}
use go_memcache.Types.{GetStatus, LeaseState, GetResult}
use go_memcache.Command.Get.{is_empty}
use go_memcache.Fetch.{
  Turn, returned, lead, compute, wait, granted_cas, lead_or_compute, empty_hit, turn_of,
}

-- What each turn needs: to return, a value that is not empty, from a hit, and for the refresh a
-- lease that was won, with its CAS; to load, the CAS of the read, and that nobody else holds the
-- lease; to compute, that no lease with a CAS was won; to wait, a read that is neither a miss nor a
-- hit, or an empty hit whose lease another holds.
abbrev pub IsAllowed : GetResult → GetStatus → Turn → Type 0
IsAllowed r status (returned v none) =
    (status ≡ GetStatus.hit) × (v ≡ r.value) × (is_empty v ≡ false)
IsAllowed r status (returned v (some cas)) =
    (status ≡ GetStatus.hit)
    × (v ≡ r.value)
    × (is_empty v ≡ false)
    × (r.lease ≡ LeaseState.granted)
    × (r.metadata.cas ≡ some cas)
IsAllowed r status (lead cas) = (r.metadata.cas ≡ some cas) × (r.lease ≢ LeaseState.busy)
IsAllowed r status compute = (cas : ℕ) → r.lease ≡ LeaseState.granted → r.metadata.cas ≢ some cas
IsAllowed r status wait =
    (status ≢ GetStatus.miss)
    × (status ≡ GetStatus.hit → (r.lease ≡ LeaseState.busy) × (is_empty r.value ≡ true))

-- The lease of a read, as `granted_cas` sees it.
data Lease (r : GetResult) : Option ℕ → Type 0 where
  won : (cas : ℕ) → r.lease ≡ LeaseState.granted → r.metadata.cas ≡ some cas → Lease r (some cas)
  not_won : ((cas : ℕ) → r.lease ≡ LeaseState.granted → r.metadata.cas ≢ some cas) → Lease r none

granted_cas-Lease : (r : GetResult) → Lease r (granted_cas r)
unfolding granted_cas
granted_cas-Lease r = go r.lease r.metadata.cas refl refl
  where
    go :
        (l : LeaseState) (cas : Option ℕ)
        → r.lease ≡ l
        → r.metadata.cas ≡ cas
        → Lease r (elim l [ LeaseState.granted ↦ cas | _ ↦ none ])
    go LeaseState.granted (some cas) e k = won cas e k
    go LeaseState.granted none e k = not_won (λ cas _ h. cc)
    go LeaseState.busy cas e k = not_won (λ n g _. cc)
    go LeaseState.no_lease cas e k = not_won (λ n g _. cc)

miss-IsAllowed :
    (r : GetResult) {cas : Option ℕ}
    → Lease r cas
    → IsAllowed r GetStatus.miss (lead_or_compute cas)
miss-IsAllowed r (won cas e k) = (k, λ b. cc)
miss-IsAllowed r (not_won h) = h

value-IsAllowed :
    (r : GetResult) {cas : Option ℕ}
    → is_empty r.value ≡ false
    → Lease r cas
    → IsAllowed r GetStatus.hit (returned r.value cas)
value-IsAllowed r full (won cas e k) = (refl, refl, full, e, k)
value-IsAllowed r full (not_won h) = (refl, refl, full)

own-IsAllowed :
    (r : GetResult) (cas : Option ℕ)
    → r.lease ≢ LeaseState.busy
    → r.metadata.cas ≡ cas
    → IsAllowed r GetStatus.hit (lead_or_compute cas)
own-IsAllowed r none free e = λ cas _ h. cc
own-IsAllowed r (some cas) free e = (e, free)

empty-IsAllowed :
    (r : GetResult) (l : LeaseState)
    → is_empty r.value ≡ true
    → r.lease ≡ l
    → IsAllowed r GetStatus.hit (empty_hit l r.metadata.cas)
empty-IsAllowed r LeaseState.busy void e = ((λ h. cc), (λ _. (e, void)))
empty-IsAllowed r LeaseState.granted void e = own-IsAllowed r r.metadata.cas (λ b. cc) refl
empty-IsAllowed r LeaseState.no_lease void e = own-IsAllowed r r.metadata.cas (λ b. cc) refl

-- A `Fetch` returns from the cache only the value of a hit, and never an empty one; it refreshes in
-- the background only under a lease that it has won, and loads only with the CAS of its read and
-- never under another's lease; it computes without writing back only where it has won no lease with
-- a CAS; and it waits neither on a miss nor on a hit, except for an empty one whose lease another
-- holds.
pub turn_of-IsAllowed : (r : GetResult) (status : GetStatus) → IsAllowed r status (turn_of r status)
unfolding turn_of
turn_of-IsAllowed r GetStatus.hit = elim (Bool-cases (is_empty r.value)) [
  | inl void ↦ rw void (empty-IsAllowed r r.lease void refl)
  | inr full ↦ rw full (value-IsAllowed r full (granted_cas-Lease r))
]
turn_of-IsAllowed r GetStatus.miss = miss-IsAllowed r (granted_cas-Lease r)
turn_of-IsAllowed r GetStatus.unknown = ((λ h. cc), (λ h. cc))
turn_of-IsAllowed r GetStatus.pending = ((λ h. cc), (λ h. cc))
turn_of-IsAllowed r GetStatus.unchanged = ((λ h. cc), (λ h. cc))
