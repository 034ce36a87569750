-- ===== src/Socks/Tests.antt =====
-- Runs of the protocol, and the witnesses.
use go_tor.Circuit.Streams.{decimal}
use go_tor.Prelude.{
  ℕ, ◌≡◌, ◌⊎◌, refl, true, false, List, [], ◌∷◌, ◌++◌, Option, none, some, ok, err, get_elem?,
  arith,
}
use go_tor.Prelude.Subset.{elem}
use go_tor.Circuit.Core.{state_open}
use go_tor.Circuit.Isolation.{
  IsolationKey, isolation_none, isolation_destination, isolation_session, isolation_credential,
  equals,
}
use go_tor.Pool.{Pooled, CircuitPool, new_circuit_pool, get_with_isolation}
use go_tor.Pool.Sound.{pool_calls}
use go_tor.Socks.{handshake, read_request, no_acceptable_methods, unknown_command, dns_reply_bytes}
use go_tor.Socks.Greeting.{conn, auth_bytes, greeting_bytes, greeting_exact}
use go_tor.Socks.Request.{
  domain, request_bytes, IsAnswered, read_request-request_bytes, read_request-IsAnswered,
}
use go_tor.Socks.Connect.{
  Config, isolation_key_for, connect, Route, routed, refused, is_onion_address, host_of,
  onion_suffix, split_last,
}
use go_tor.Socks.Connect.Isolation.{wanted, TakenFor, isolation_key_exact, connect_isolated}
use go_tor.Socks.Connect.Colons.{first_is, connected, target_colons}

abbrev both : List ℕ
both = 0 ∷ 2 ∷ []

greeting_exact_example :
    (elem 2 both ≡ true
      → handshake
          (conn (greeting_bytes both ++ (auth_bytes (97 ∷ []) (98 ∷ 99 ∷ []) ++ (5 ∷ []))) [] 9)
        ≡ (conn (5 ∷ []) (5 ∷ 2 ∷ 1 ∷ 0 ∷ []) 7, ok (97 ∷ [])))
    × (elem 2 both ≡ false
        → elem 0 both ≡ true
        → handshake (conn (greeting_bytes both ++ (5 ∷ [])) [] 8)
          ≡ (conn (5 ∷ []) (5 ∷ 0 ∷ []) 7, ok []))
    × (elem 2 both ≡ false
        → elem 0 both ≡ false
        → handshake (conn (greeting_bytes both ++ (5 ∷ [])) [] 8)
          ≡ (conn (5 ∷ []) (5 ∷ 255 ∷ []) 7, err no_acceptable_methods))
greeting_exact_example = greeting_exact both (97 ∷ []) (98 ∷ 99 ∷ []) (5 ∷ []) [] 7

abbrev as_text : List ℕ → List ℕ
as_text ip = 58 ∷ 58 ∷ 49 ∷ []

-- The name a.b and port 80.
read_request-request_bytes_example :
    (read_request as_text true
        (conn (request_bytes 1 (domain (97 ∷ 46 ∷ 98 ∷ [])) 80 ++ (7 ∷ [])) [] 3)
      ≡ (
        conn (7 ∷ []) [] 3,
        ok (record { cmd = 1; target_addr = (97 ∷ 46 ∷ 98 ∷ []) ++ (58 ∷ decimal 5 80) }),
      ))
    × ((cmd : ℕ)
        → (cmd ≡ 240) ⊎ (cmd ≡ 241)
        → true ≡ true
        → read_request as_text true
            (conn (request_bytes cmd (domain (97 ∷ 46 ∷ 98 ∷ [])) 80 ++ (7 ∷ [])) [] 3)
          ≡ (conn (7 ∷ []) [] 3, ok (record { cmd = cmd; target_addr = 97 ∷ 46 ∷ 98 ∷ [] })))
read_request-request_bytes_example =
    read_request-request_bytes as_text true 80 (domain (97 ∷ 46 ∷ 98 ∷ [])) (7 ∷ []) [] 3 tt
      (omega arith)

unknown_run :
    read_request as_text true (conn (5 ∷ 9 ∷ 0 ∷ 1 ∷ []) [] 3)
    ≡ (conn [] (5 ∷ 7 ∷ 0 ∷ 1 ∷ 0 ∷ 0 ∷ 0 ∷ 0 ∷ 0 ∷ 0 ∷ []) 2, err unknown_command)
unfolding read_request go_tor.Cell.Io.read_full
unknown_run = refl

dns_reply_run :
    dns_reply_bytes 0 ((1 ∷ 2 ∷ 3 ∷ 4 ∷ []) ∷ []) 60
    ≡ 5 ∷ 0 ∷ 0 ∷ 1 ∷ 1 ∷ 2 ∷ 3 ∷ 4 ∷ 0 ∷ 0 ∷ 0 ∷ 60 ∷ []
unfolding dns_reply_bytes
dns_reply_run = refl

read_request-IsAnswered_example :
    IsAnswered [] 3 (read_request as_text true (conn (5 ∷ 9 ∷ 0 ∷ 1 ∷ []) [] 3))
read_request-IsAnswered_example = read_request-IsAnswered as_text true (5 ∷ 9 ∷ 0 ∷ 1 ∷ []) [] 3

abbrev by_destination : Config
by_destination = record {
  isolation_level = isolation_destination;
  isolate_destinations = true;
  isolate_socks_auth = false;
  isolate_client_port = false;
}

abbrev same_sum : List ℕ → List ℕ
same_sum s = s

-- The level of sessions gives no isolation.
session_run :
    isolation_key_for same_sum
      (record by_destination { isolation_level = isolation_session })
      (97 ∷ 58 ∷ 49 ∷ [])
      (98 ∷ [])
      (some 9)
    ≡ none
unfolding isolation_key_for go_tor.Circuit.Isolation.validate_key
    go_tor.Circuit.Isolation.new_isolation_key
session_run = refl

isolation_key_exact_example :
    isolation_key_for same_sum by_destination (97 ∷ 58 ∷ 49 ∷ []) [] none
    ≡ wanted same_sum isolation_destination by_destination (97 ∷ 58 ∷ 49 ∷ []) [] none
isolation_key_exact_example =
    isolation_key_exact same_sum by_destination (97 ∷ 58 ∷ 49 ∷ []) [] none

abbrev key_of_target : IsolationKey
key_of_target = record {
  level = isolation_destination;
  destination = 97 ∷ 58 ∷ 49 ∷ [];
  credentials = [];
  source_port = 0;
  session_token = [];
}

abbrev fresh_out : Option CircuitPool
fresh_out =
    (connect same_sum false by_destination (some state_open) (97 ∷ 58 ∷ 49 ∷ []) [] none
      (some (pool_calls [] (new_circuit_pool 2 10)))).0

wanted_run :
    wanted same_sum isolation_destination by_destination (97 ∷ 58 ∷ 49 ∷ []) [] none
    ≡ some key_of_target
unfolding elem go_tor.Circuit.Isolation.with_destination go_tor.Circuit.Isolation.new_isolation_key
wanted_run = refl

routed_run :
    (connect same_sum false by_destination
      (some state_open)
      (97 ∷ 58 ∷ 49 ∷ [])
      []
      none
      (some (pool_calls [] (new_circuit_pool 2 10)))).1
    ≡ routed 0 (97 ∷ []) 1
unfolding connect go_tor.Pool.get_with_isolation go_tor.Circuit.Isolation.validate_key
    go_tor.Circuit.Isolation.with_destination go_tor.Circuit.Isolation.new_isolation_key elem
    go_tor.Pool.pool_at pool_calls new_circuit_pool go_tor.Text.digits
routed_run = refl

connect_isolated_example : TakenFor key_of_target 0 fresh_out
connect_isolated_example =
    connect_isolated same_sum [] 2 10 by_destination false (some state_open) (97 ∷ 58 ∷ 49 ∷ []) []
      none key_of_target 0 (97 ∷ []) 1 tt (omega arith) wanted_run routed_run

-- The address ::1, port 80.
abbrev loopback : List ℕ
loopback = 58 ∷ 58 ∷ 49 ∷ []

abbrev loopback_connected : Option CircuitPool → Option CircuitPool × Route
loopback_connected pool =
    connected same_sum false by_destination (some state_open) loopback 80 [] none pool

target_colons_example :
    (is_onion_address loopback ≡ true
      → (pool : Option CircuitPool) → loopback_connected pool ≡ (pool, refused 4))
    × (is_onion_address loopback ≡ false
        → elem 58 loopback ≡ false
        → elem 91 loopback ≡ false
        → elem 93 loopback ≡ false
        → (p : CircuitPool) (r : ℕ)
        → (get_with_isolation
            (some state_open)
            (isolation_key_for same_sum by_destination (loopback ++ (58 ∷ decimal 5 80)) [] none)
            p).1
          ≡ some r
        → (loopback_connected (some p)).1 ≡ routed r loopback 80)
    × (is_onion_address loopback ≡ false
        → elem 58 loopback ≡ true
        → first_is 91 loopback ≡ false
        → (pool : Option CircuitPool) → (loopback_connected pool).1 ≡ refused 1)
target_colons_example =
    target_colons same_sum false by_destination (some state_open) loopback 80 [] none (omega arith)

-- A host that ends in .onion is recognized before its port.
onion_run : is_onion_address (host_of (97 ∷ (onion_suffix ++ (58 ∷ 56 ∷ 48 ∷ [])))) ≡ true
unfolding is_onion_address host_of split_last go_tor.Prelude.bytes_eq
onion_run = refl
