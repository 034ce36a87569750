-- ===== src/Circuit/Isolation/Tests.antt =====
-- The lookup string at two concrete keys.
use go_tor.Prelude.{ℕ, ◌≡◌, ◌↔◌, true, some, arith}
use go_tor.Circuit.Isolation.{
  IsolationKey, isolation_port, new_isolation_key, with_source_port, key, equals,
}
use go_tor.Circuit.Isolation.Separate.{key-separates}

abbrev by_port : ℕ → IsolationKey
unfolding new_isolation_key with_source_port
by_port n = with_source_port n (new_isolation_key isolation_port)

key-separates_example :
    (key (some (by_port 8080)) ≡ key (some (by_port 8081)))
    ↔ (equals (some (by_port 8080)) (some (by_port 8081)) ≡ true)
unfolding by_port new_isolation_key with_source_port
key-separates_example = key-separates (by_port 8080) (by_port 8081) (omega arith) (omega arith)
