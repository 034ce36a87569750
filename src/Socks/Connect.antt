-- ===== src/Socks/Connect.antt =====
-- pkg/socks/socks.go: the circuit and the destination of a CONNECT request, with the test of
-- pkg/onion/onion.go for onion addresses. The pool is none where the server has none; the hexadecimal
-- digits of SHA-256, and whether an onion service is reached, are arguments.
pub mod Isolation
pub mod Colons
use go_tor.Prelude.{
  ℕ, zero, suc, ◌+◌, ◌≡◌, Bool, true, false, not, ◌||◌, ◌&&◌, List, [], ◌∷◌, ◌++◌, Option, none,
  some, Result, ok, err, ltb, leb, ◌-◌, ◌==◌, if◌then◌else◌, length, drop, bytes_eq,
}
use go_tor.Prelude.Subset.{elem}
use go_tor.Text.{digits}
use go_tor.Circuit.Core.{State}
use go_tor.Circuit.Isolation.{
  IsolationLevel, isolation_none, isolation_destination, isolation_credential, isolation_port,
  isolation_session, IsolationKey, IsolationError, new_isolation_key, with_destination,
  with_credentials, with_source_port, validate_key,
}
use go_tor.Pool.{CircuitPool, get_with_isolation, put}

pub record Config : Type 0 where
  pub isolation_level : IsolationLevel
  pub isolate_destinations : Bool
  pub isolate_socks_auth : Bool
  pub isolate_client_port : Bool

abbrev pub nonempty : List ℕ → Bool
nonempty [] = false
nonempty (b ∷ bs) = true

-- The source port, where the client's address is one of TCP.
abbrev pub with_port : Option ℕ → IsolationKey → IsolationKey
with_port none k = k
with_port (some port) k = with_source_port port k

abbrev pub if_valid : IsolationKey → Result IsolationError (Unit {0}) → Option IsolationKey
if_valid k (ok _) = some k
if_valid k (err _) = none

abbrev pub is_unset : IsolationLevel → Bool
is_unset isolation_none = true
is_unset _ = false

module _ (hex_sum : List ℕ → List ℕ) where
  unfoldable pub key_of_level : IsolationLevel → Config → List ℕ → List ℕ → Option ℕ → IsolationKey
  key_of_level isolation_destination cfg target username port =
      let k = new_isolation_key isolation_destination in
      if cfg.isolate_destinations then with_destination target k else k
  key_of_level isolation_credential cfg target username port =
      let k = new_isolation_key isolation_credential in
      if cfg.isolate_socks_auth && nonempty username then with_credentials hex_sum username k else k
  key_of_level isolation_port cfg target username port =
      let k = new_isolation_key isolation_port in
      if cfg.isolate_client_port then with_port port k else k
  key_of_level level cfg target username port = new_isolation_key level

  -- An invalid key is dropped.
  unfoldable pub isolation_key_for : Config → List ℕ → List ℕ → Option ℕ → Option IsolationKey
  unfolding key_of_level
  isolation_key_for cfg target username port =
      if is_unset cfg.isolation_level
      then none
      else let k = key_of_level cfg.isolation_level cfg target username port in
        if_valid k (validate_key (some k))

abbrev pub or_split : Option (List ℕ × List ℕ) → Option (List ℕ × List ℕ) → Option (List ℕ × List ℕ)
or_split none later = later
or_split (some p) later = some p

-- The byte in front of the text before.
abbrev pub in_front : ℕ → Option (List ℕ × List ℕ) → Option (List ℕ × List ℕ)
in_front x none = none
in_front x (some (before, after)) = some (x ∷ before, after)

-- The text before the last occurrence of a byte, and the text behind it.
unfoldable pub split_last : ℕ → List ℕ → Option (List ℕ × List ℕ)
split_last b [] = none
split_last b (x ∷ xs) =
    or_split (in_front x (split_last b xs)) (if x == b then some ([], xs) else none)

-- The text before the first occurrence of a byte, and the text behind it.
unfoldable pub split_first : ℕ → List ℕ → Option (List ℕ × List ℕ)
split_first b [] = none
split_first b (x ∷ xs) =
    let later = split_first b xs in if x == b then some ([], xs) else in_front x later

-- Behind the closing bracket: a colon and a port without a further colon or bracket.
abbrev pub bracketed : List ℕ → List ℕ → Option (List ℕ × List ℕ)
bracketed host [] = none
bracketed host (c ∷ port) =
    if not (c == 58) || elem 58 port || elem 91 host || elem 91 port || elem 93 port
    then none
    else some (host, port)

abbrev pub or_none : {A B : Type 0} → Option A → (A → Option B) → Option B
or_none none k = none
or_none (some a) k = k a

abbrev pub unbracketed : List ℕ → List ℕ → Option (List ℕ × List ℕ)
unbracketed host port =
    if elem 58 host || elem 91 host || elem 91 port || elem 93 host || elem 93 port
    then none
    else some (host, port)

-- `net.SplitHostPort`; `none` for each of its errors.
unfoldable pub split_host_port : List ℕ → Option (List ℕ × List ℕ)
unfolding split_last split_first
split_host_port [] = none
split_host_port (c ∷ text) =
    if c == 91
    then or_none (split_first 93 text) (λ p. bracketed p.0 p.1)
    else or_none (split_last 58 (c ∷ text)) (λ p. unbracketed p.0 p.1)

-- `fmt.Sscanf(s, "%d", &port)` on a uint16.
abbrev pub as_uint16 : Option ℕ → Option ℕ
as_uint16 none = none
as_uint16 (some v) = if ltb v 65536 then some v else none

abbrev pub scan_uint16 : List ℕ → Option ℕ
scan_uint16 s = as_uint16 (digits none s)

-- A reply that ends the request, the reply of success for an onion service, or the circuit, the host
-- and the port that a stream is opened to.
pub data Route : Type 0 where
  refused : ℕ → Route
  onion_reached : Route
  routed : ℕ → List ℕ → ℕ → Route

abbrev pub with_port_number : ℕ → List ℕ → Option ℕ → Route
with_port_number r host none = refused 1
with_port_number r host (some n) = routed r host n

abbrev pub route_to : ℕ → Option (List ℕ × List ℕ) → Route
route_to r none = refused 1
route_to r (some (host, port)) = with_port_number r host (scan_uint16 port)

-- A circuit that is not used goes back to the pool.
abbrev pub put_back : Route → ℕ → CircuitPool → CircuitPool
put_back (refused status) r p = put r p
put_back onion_reached r p = p
put_back (routed q host port) r p = p

abbrev pub with_circuit : List ℕ → CircuitPool × Option ℕ → Option CircuitPool × Route
with_circuit target (p, none) = (some p, refused 1)
with_circuit target (p, some r) =
    let route = route_to r (split_host_port target) in (some (put_back route r p), route)

abbrev pub onion_suffix : List ℕ
onion_suffix = 46 ∷ 111 ∷ 110 ∷ 105 ∷ 111 ∷ 110 ∷ []

-- `strings.HasSuffix(addr, ".onion")`
unfoldable pub is_onion_address : List ℕ → Bool
is_onion_address addr =
    leb (length onion_suffix) (length addr)
    && bytes_eq (drop (length addr - length onion_suffix) addr) onion_suffix

-- The target up to its last colon.
abbrev pub host_or : List ℕ → Option (List ℕ × List ℕ) → List ℕ
host_or target none = target
host_or target (some (host, port)) = host

unfoldable pub host_of : List ℕ → List ℕ
unfolding split_last
host_of target = host_or target (split_last 58 target)

module _ (hex_sum : List ℕ → List ℕ) where
  -- A target that is no onion service; `built` is what the circuit builder gives.
  abbrev pub connect_regular :
      Config
      → Option State
      → List ℕ
      → List ℕ
      → Option ℕ
      → Option CircuitPool
      → Option CircuitPool × Route
  connect_regular cfg built target username port none = (none, refused 1)
  connect_regular cfg built target username port (some p) =
      with_circuit target
        (get_with_isolation built (isolation_key_for hex_sum cfg target username port) p)

  -- `reached` says whether the text is an address of an onion service and the service was connected to.
  unfoldable pub connect :
      Bool
      → Config
      → Option State
      → List ℕ
      → List ℕ
      → Option ℕ
      → Option CircuitPool
      → Option CircuitPool × Route
  unfolding isolation_key_for split_host_port is_onion_address host_of
  connect reached cfg built target username port pool =
      if is_onion_address (host_of target)
      then (pool, if reached then onion_reached else refused 4)
      else connect_regular cfg built target username port pool
