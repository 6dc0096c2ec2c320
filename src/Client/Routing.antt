-- ===== src/Client/Routing.antt =====
-- What `server` returns on a client that `New` made.
use mathlib.Core.Path.{subst}
use go_memcache.Base.{
  ℕ, zero, suc, ◌+◌, ◌<◌, ◌≡◌, refl, sym, ap, arith, true, List, [], ◌∷◌, Option, none, some, Bytes,
  same, same_iff, any, length, get_elem?, if◌then◌else◌, Bool-cases, inl, inr,
}
use go_memcache.Base.Int.{ℤ, pos, negsuc}
use go_memcache.Errors.{
  Err, plain, ok, err, bind-eq-ok, refuse-eq-ok, ok-elim, server_empty, server_duplicate,
  network_empty, no_servers, router_index, router_address,
}
use go_memcache.Options.{Config, ClientOption, default_config}
use go_memcache.Client.{
  Client, index_servers, is_nil, no_server, new_client, apply_options, in_range, lookup_address,
  or_refuse, server,
}

-- Every address that the map knows has its own index in the list.
abbrev pub IsIndexed : ℕ → List Bytes → List (Bytes × ℕ) → Type 0
IsIndexed start addresses indexes =
    (a : Bytes) (j : ℕ)
    → lookup_address a indexes ≡ some j
    → (k : ℕ) × (j ≡ start + k) × (get_elem? addresses k ≡ some a)

IsIndexed-nil : (i : ℕ) → IsIndexed i [] []
unfolding lookup_address
IsIndexed-nil i a j h = cc

IsIndexed-cons :
    (i : ℕ) (address : Bytes) (rest : List Bytes) (later : List (Bytes × ℕ))
    → IsIndexed (i + 1) rest later
    → IsIndexed i (address ∷ rest) ((address, i) ∷ later)
unfolding lookup_address
IsIndexed-cons i address rest later ih a j h = elim (Bool-cases (same address a)) [
  | inl e ↦
      let here : i ≡ j = cc (rw e at h) in
      (0, omega (arith, here), ap some ((same_iff address a).0 e))
  | inr e ↦ let (k, place, found) = ih a j (rw e at h) in (suc k, omega (arith, place), found)
]

index_servers-IsIndexed :
    (seen : List Bytes) (i : ℕ) (rest : List Bytes) {indexes : List (Bytes × ℕ)}
    → index_servers seen i rest ≡ ok indexes
    → IsIndexed i rest indexes
unfolding index_servers
index_servers-IsIndexed seen i [] {indexes} h = ok-elim (IsIndexed i []) h (IsIndexed-nil i)
index_servers-IsIndexed seen i (address ∷ rest) {indexes} h =
    let (_, h1) = refuse-eq-ok (is_nil address) (plain server_empty) _ h in
    let (_, h2) = refuse-eq-ok (any (same address) seen) (plain server_duplicate) _ h1 in
    let (later, indexed, last) = bind-eq-ok (index_servers (address ∷ seen) (i + 1) rest) _ h2 in
    ok-elim (IsIndexed i (address ∷ rest)) last (
      IsIndexed-cons i address rest later
        (index_servers-IsIndexed (address ∷ seen) (i + 1) rest indexed))

-- What `New` has made sure of.
pub record IsRouted (c : Client) : Type 0 where
  pub same_addresses : c.addresses ≡ c.config.servers
  pub indexed : c.config.copy_servers_for_router ≡ true → IsIndexed 0 c.addresses c.server_indexes

IsRouted-start :
    (config : Config) (indexes : List (Bytes × ℕ))
    → IsIndexed 0 config.servers indexes
    → IsRouted (record {
      config = config;
      addresses = config.servers;
      server_indexes = if config.copy_servers_for_router then indexes else [];
    })
IsRouted-start config indexes h = record { same_addresses = refl; indexed = λ copied. rw copied h }

new_client-IsRouted :
    (first : Bytes) (options : List ClientOption) {c : Client}
    → new_client first options ≡ ok c
    → IsRouted c
unfolding new_client
new_client-IsRouted first options {c} h =
    let (config, _, h1) = bind-eq-ok (apply_options options (default_config first)) _ h in
    let (_, h2) = refuse-eq-ok (is_nil config.network) (plain network_empty) _ h1 in
    let (_, h3) = refuse-eq-ok (no_server config.servers) (plain no_servers) _ h2 in
    let (indexes, indexed, last) = bind-eq-ok (index_servers [] 0 config.servers) _ h3 in
    ok-elim IsRouted last
      (IsRouted-start config indexes (index_servers-IsIndexed [] 0 config.servers indexed))

or_refuse-eq-ok {ℓ} :
    {A : Type ℓ} (o : Option A) (e : Err) {a : A} → or_refuse o (err e) ≡ ok a → o ≡ some a
or_refuse-eq-ok none e h = cc
or_refuse-eq-ok (some b) e h = ok-elim (λ x. some b ≡ some x) h refl

in_range-eq-some :
    (index : ℤ) (n : ℕ) {i : ℕ} → in_range index n ≡ some i → (index ≡ pos i) × (i < n)
unfolding in_range
in_range-eq-some (pos j) n h = ground arith
in_range-eq-some (negsuc j) n h = cc

get_elem?-below :
    (xs : List Bytes) (i : ℕ) → i < length xs → (a : Bytes) × (get_elem? xs i ≡ some a)
get_elem?-below [] i h = elim h [ ]
get_elem?-below (x ∷ xs) zero h = (x, refl)
get_elem?-below (x ∷ xs) (suc i) h = get_elem?-below xs i (omega arith)

IsIndexed-found :
    (addresses : List Bytes) (indexes : List (Bytes × ℕ)) (a : Bytes) (i : ℕ)
    → IsIndexed 0 addresses indexes
    → lookup_address a indexes ≡ some i
    → get_elem? addresses i ≡ some a
IsIndexed-found addresses indexes a i h k =
    let (place, same_place, found) = h a i k in
    let here : i ≡ place = omega (arith, same_place) in
    subst (λ x. get_elem? addresses x ≡ some a) (sym here) found

-- The address that the router's answer names in the list as the router left it.
abbrev pub selected_address : Client → Bytes → ℕ → Option Bytes
selected_address c key j = get_elem? (c.config.router key c.config.servers).1 j

-- With a custom router, which may reorder the list that it is given, a client that `New` has made
-- sends a key to the server whose address stands at the returned index of the list as the router
-- left it.
pub server-selected :
    (first : Bytes) (options : List ClientOption) (key : Bytes) {c : Client} {i : ℕ}
    → new_client first options ≡ ok c
    → c.config.copy_servers_for_router ≡ true
    → server c key ≡ ok i
    → (j : ℕ) × (a : Bytes) × ((c.config.router key c.config.servers).0 ≡ pos j)
      × (selected_address c key j ≡ some a)
      × (get_elem? c.addresses i ≡ some a)
unfolding server
server-selected first options key {c} {i} made copied h =
    let r = new_client-IsRouted first options made in
    let ranged = in_range (c.config.router key c.config.servers).0 (length c.config.servers) in
    let (j, inside, k) =
      bind-eq-ok (or_refuse ranged (err (plain router_index))) _ (rw copied at h) in
    let (a, chosen, l) =
      bind-eq-ok (or_refuse (selected_address c key j) (err (plain router_index))) _ k in
    (
      j,
      a,
      (in_range-eq-some _ _ (or_refuse-eq-ok ranged (plain router_index) inside)).0,
      or_refuse-eq-ok (selected_address c key j) (plain router_index) chosen,
      IsIndexed-found c.addresses c.server_indexes a i (r.indexed copied)
          (or_refuse-eq-ok (lookup_address a c.server_indexes) (plain router_address) l),
    )

-- With or without a custom router, the server of a key is one of the client's own.
pub server-in_range :
    (first : Bytes) (options : List ClientOption) (key : Bytes) {c : Client} {i : ℕ}
    → new_client first options ≡ ok c
    → server c key ≡ ok i
    → (a : Bytes) × (get_elem? c.addresses i ≡ some a)
unfolding server
server-in_range first options key {c} {i} made h =
    elim (Bool-cases c.config.copy_servers_for_router) [
      | inl e ↦ let (_, a, _, _, found) = server-selected first options key made e h in (a, found)
      | inr e ↦
          get_elem?-below c.addresses i
            (in_range-eq-some (c.config.router key c.config.servers).0 (length c.addresses)
              (or_refuse-eq-ok _ (plain router_index) (rw e at h))).1
    ]
