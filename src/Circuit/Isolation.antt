-- ===== src/Circuit/Isolation.antt =====
-- pkg/circuit/isolation.go: the keys that keep streams on circuits of their own.
-- A string is its bytes; a nil pointer is `none`; a level is one of the five constants.
pub mod Separate
mod Tests
use go_tor.Prelude.{
  ℕ, ◌≡◌, Bool, true, false, not, List, [], ◌∷◌, ◌++◌, Option, none, some, Result, ok, err, ◌==◌,
  bytes_eq, if◌then◌else◌, refuse_if, ◌>>=◌, ◌>>◌,
}
use go_tor.Prelude.Subset.{elem}
use go_tor.Circuit.Streams.{decimal}

pub data IsolationLevel : Type 0 where
  isolation_none isolation_destination isolation_credential isolation_port : IsolationLevel
  isolation_session : IsolationLevel

pub record IsolationKey : Type 0 where
  pub level : IsolationLevel
  pub destination : List ℕ
  pub credentials : List ℕ
  pub source_port : ℕ  -- uint16
  pub session_token : List ℕ

unfoldable pub new_isolation_key : IsolationLevel → IsolationKey
new_isolation_key level = record {
  level = level;
  destination = [];
  credentials = [];
  source_port = 0;
  session_token = [];
}

unfoldable pub with_destination : List ℕ → IsolationKey → IsolationKey
with_destination dest k = record k { destination = dest }

unfoldable pub with_source_port : ℕ → IsolationKey → IsolationKey
with_source_port port k = record k { source_port = port }

-- The hexadecimal digits of the SHA-256 sum are an argument.
module _ (hex_sum : List ℕ → List ℕ) where
  unfoldable pub with_credentials : List ℕ → IsolationKey → IsolationKey
  with_credentials [] k = k
  with_credentials (b ∷ bs) k = record k { credentials = hex_sum (b ∷ bs) }

  unfoldable pub with_session_token : List ℕ → IsolationKey → IsolationKey
  with_session_token [] k = k
  with_session_token (b ∷ bs) k = record k { session_token = hex_sum (b ∷ bs) }

-- The two parts joined by a colon, after "dest", "creds", "port" or "session".
unfoldable pub key_at : IsolationLevel → IsolationKey → List ℕ
key_at isolation_none k = []
key_at isolation_destination k = 100 ∷ 101 ∷ 115 ∷ 116 ∷ 58 ∷ k.destination
key_at isolation_credential k = 99 ∷ 114 ∷ 101 ∷ 100 ∷ 115 ∷ 58 ∷ k.credentials
key_at isolation_port k = 112 ∷ 111 ∷ 114 ∷ 116 ∷ 58 ∷ decimal 5 k.source_port
key_at isolation_session k = 115 ∷ 101 ∷ 115 ∷ 115 ∷ 105 ∷ 111 ∷ 110 ∷ 58 ∷ k.session_token

unfoldable pub key : Option IsolationKey → List ℕ
unfolding key_at
key none = []
key (some k) = key_at k.level k

-- The constants of the level.
unfoldable pub level_number : IsolationLevel → ℕ
level_number isolation_none = 0
level_number isolation_destination = 1
level_number isolation_credential = 2
level_number isolation_port = 3
level_number isolation_session = 4

-- The comparison of two keys of a level.
unfoldable pub equals_at : IsolationLevel → IsolationKey → IsolationKey → Bool
equals_at isolation_none k o = true
equals_at isolation_destination k o = bytes_eq k.destination o.destination
equals_at isolation_credential k o = bytes_eq k.credentials o.credentials
equals_at isolation_port k o = k.source_port == o.source_port
equals_at isolation_session k o = bytes_eq k.session_token o.session_token

unfoldable pub equals : Option IsolationKey → Option IsolationKey → Bool
unfolding equals_at level_number
equals none none = true
equals none (some o) = false
equals (some k) none = false
equals (some k) (some o) =
    if level_number k.level == level_number o.level then equals_at k.level k o else false

pub data IsolationError : Type 0 where
  key_is_nil no_destination invalid_destination no_credentials no_source_port : IsolationError
  no_session_token : IsolationError

abbrev is_empty : List ℕ → Bool
is_empty [] = true
is_empty (b ∷ bs) = false

unfoldable pub validate_key : Option IsolationKey → Result IsolationError (Unit {0})
validate_key none = err key_is_nil
validate_key (some k) = elim k.level [
  | isolation_none ↦ ok tt
  | isolation_destination ↦
      refuse_if (is_empty k.destination) no_destination
      >> refuse_if (not (elem 58 k.destination)) invalid_destination
  | isolation_credential ↦ refuse_if (is_empty k.credentials) no_credentials
  | isolation_port ↦ refuse_if (k.source_port == 0) no_source_port
  | isolation_session ↦ refuse_if (is_empty k.session_token) no_session_token
]
