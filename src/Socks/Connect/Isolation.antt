-- ===== src/Socks/Connect/Isolation.antt =====
-- Which isolation a CONNECT request gets.
use go_tor.Prelude.{
  sym, ℕ, ◌<◌, ◌≡◌, ◌≢◌, refl, subst, ap, ◌∙◌, inl, inr, Bool, true, false, not, ◌&&◌, List, [],
  ◌∷◌, Option, none, some, ◌==◌, if◌then◌else◌, Bool-cases, get_elem?, All, arith,
}
use go_tor.Prelude.Subset.{elem}
use go_tor.Circuit.Core.{State}
use go_tor.Circuit.Isolation.{
  IsolationLevel, isolation_none, isolation_destination, isolation_credential, isolation_port,
  isolation_session, IsolationKey, new_isolation_key, with_destination, with_credentials,
  with_source_port, validate_key, level_number, equals,
}
use go_tor.Pool.{Pooled, CircuitPool, new_circuit_pool, get_with_isolation}
use go_tor.Pool.Sound.{PoolCall, CallOk, pool_calls}
use go_tor.Pool.Isolated.{circuits_isolated}
use go_tor.Socks.Connect.{
  Config, nonempty, is_unset, if_valid, key_of_level, isolation_key_for, refused, routed, route_to,
  with_circuit, connect, connect_regular, is_onion_address, host_of, onion_reached, split_host_port,
  with_port_number, scan_uint16, put_back,
}

check_credentials :
    (cs : List ℕ)
    → let k = record (new_isolation_key isolation_credential) { credentials = cs } in
      if_valid k (validate_key (some k)) ≡ (if nonempty cs then some k else none)
unfolding validate_key new_isolation_key
check_credentials [] = refl
check_credentials (b ∷ bs) = refl

check_port :
    (n : ℕ)
    → let k = with_source_port n (new_isolation_key isolation_port) in
      if_valid k (validate_key (some k)) ≡ (if not (n == 0) then some k else none)
unfolding validate_key new_isolation_key with_source_port
check_port n = elim (Bool-cases (n == 0)) [ inl e ↦ rw e refl | inr e ↦ rw e refl ]

module _ (hex_sum : List ℕ → List ℕ) where
  -- The isolation that a level asks for, where the flag and the client allow it.
  abbrev pub wanted : IsolationLevel → Config → List ℕ → List ℕ → Option ℕ → Option IsolationKey
  wanted isolation_none cfg target username port = none
  wanted isolation_destination cfg target username port =
      if cfg.isolate_destinations && elem 58 target
      then some (with_destination target (new_isolation_key isolation_destination))
      else none
  wanted isolation_credential cfg target username port =
      if cfg.isolate_socks_auth && (nonempty username && nonempty (hex_sum username))
      then some (with_credentials hex_sum username (new_isolation_key isolation_credential))
      else none
  wanted isolation_port cfg target username none = none
  wanted isolation_port cfg target username (some n) =
      if cfg.isolate_client_port && not (n == 0)
      then some (with_source_port n (new_isolation_key isolation_port))
      else none
  wanted isolation_session cfg target username port = none

  key_at_level :
      (l : IsolationLevel) (cfg : Config) (target username : List ℕ) (port : Option ℕ)
      → (if is_unset l
          then none
          else (let k = key_of_level hex_sum l cfg target username port in
              if_valid k (validate_key (some k))))
        ≡ wanted l cfg target username port
  unfolding key_of_level validate_key new_isolation_key with_destination with_credentials
      with_source_port elem
  key_at_level isolation_none cfg target username port = refl
  key_at_level isolation_destination cfg [] username port =
      elim (Bool-cases cfg.isolate_destinations) [ inl e ↦ rw e refl | inr e ↦ rw e refl ]
  key_at_level isolation_destination cfg (b ∷ bs) username port =
      elim (Bool-cases cfg.isolate_destinations) [
        | inl e ↦ elim (Bool-cases (elem 58 (b ∷ bs))) [
          | inl f ↦ rw (e, f) refl
          | inr f ↦ rw (e, f) refl
        ]
        | inr e ↦ rw e refl
      ]
  key_at_level isolation_credential cfg target [] port = elim (Bool-cases cfg.isolate_socks_auth) [
    | inl e ↦ rw e refl
    | inr e ↦ rw e refl
  ]
  key_at_level isolation_credential cfg target (b ∷ bs) port =
      elim (Bool-cases cfg.isolate_socks_auth) [
        | inl e ↦ rw e (check_credentials (hex_sum (b ∷ bs)))
        | inr e ↦ rw e refl
      ]
  key_at_level isolation_port cfg target username none = elim (Bool-cases cfg.isolate_client_port) [
    | inl e ↦ rw e refl
    | inr e ↦ rw e refl
  ]
  key_at_level isolation_port cfg target username (some n) =
      elim (Bool-cases cfg.isolate_client_port) [ inl e ↦ rw e (check_port n) | inr e ↦ rw e refl ]
  key_at_level isolation_session cfg target username port = refl

  -- A request is isolated only where the flag of the level is set and the client gives what the level
  -- asks for: a target with a colon, a username, a source port. It is not isolated at all otherwise, nor
  -- with the level of sessions.
  pub isolation_key_exact :
      (cfg : Config) (target username : List ℕ) (port : Option ℕ)
      → isolation_key_for hex_sum cfg target username port
        ≡ wanted cfg.isolation_level cfg target username port
  unfolding isolation_key_for
  isolation_key_exact cfg target username port =
      key_at_level cfg.isolation_level cfg target username port

-- A key, where there is one, has a level.
abbrev HasLevel : Option IsolationKey → Type 0
HasLevel o = (k : IsolationKey) → o ≡ some k → level_number k.level ≢ 0

if-HasLevel :
    (b : Bool) (k : IsolationKey) → level_number k.level ≢ 0 → HasLevel (if b then some k else none)
if-HasLevel true k h j e =
    let f : k ≡ j = ap (λ o. elim o [ some x ↦ x | none ↦ k ]) e in
    subst (λ t. level_number t.level ≢ 0) f h
if-HasLevel false k h j e = absurd (cc)

wanted-HasLevel :
    (hex_sum : List ℕ → List ℕ) (l : IsolationLevel) (cfg : Config) (target username : List ℕ)
    (port : Option ℕ)
    → HasLevel (wanted hex_sum l cfg target username port)
unfolding new_isolation_key with_destination with_credentials with_source_port level_number
wanted-HasLevel hex_sum isolation_none cfg target username port = λ k e. absurd (cc)
wanted-HasLevel hex_sum isolation_destination cfg target username port =
    if-HasLevel _ _ (λ h. absurd (omega (arith, h)))
wanted-HasLevel hex_sum isolation_credential cfg target [] port =
    if-HasLevel _ _ (λ h. absurd (omega (arith, h)))
wanted-HasLevel hex_sum isolation_credential cfg target (b ∷ bs) port =
    if-HasLevel _ _ (λ h. absurd (omega (arith, h)))
wanted-HasLevel hex_sum isolation_port cfg target username none = λ k e. absurd (cc)
wanted-HasLevel hex_sum isolation_port cfg target username (some n) =
    if-HasLevel _ _ (λ h. absurd (omega (arith, h)))
wanted-HasLevel hex_sum isolation_session cfg target username port = λ k e. absurd (cc)

-- The circuit of a route is the one that was taken, and the pool is as it was then.
port_number-circuit :
    (q r : ℕ) (h host : List ℕ) (o : Option ℕ) (n : ℕ)
    → with_port_number q h o ≡ routed r host n
    → q ≡ r
port_number-circuit q r h host none n e = absurd (cc)
port_number-circuit q r h host (some m) n e =
    ap (λ t. elim t [ refused _ ↦ q | onion_reached ↦ q | routed i _ _ ↦ i ]) e

route_to-circuit :
    (q r : ℕ) (o : Option (List ℕ × List ℕ)) (host : List ℕ) (n : ℕ)
    → route_to q o ≡ routed r host n
    → q ≡ r
route_to-circuit q r none host n e = absurd (cc)
route_to-circuit q r (some (h, p)) host n e = port_number-circuit q r h host (scan_uint16 p) n e

routed-circuit :
    (target : List ℕ) (x : CircuitPool × Option ℕ) (r : ℕ) (host : List ℕ) (n : ℕ)
    → (with_circuit target x).1 ≡ routed r host n
    → (x.1 ≡ some r) × ((with_circuit target x).0 ≡ some x.0)
routed-circuit target (p, none) r host n e = absurd (cc)
routed-circuit target (p, some q) r host n e = (
  ap some (route_to-circuit q r (split_host_port target) host n e),
  ap (λ t. some (put_back t q p)) e,
)

-- The pool has the circuit, with a key that is equal to the given one.
abbrev pub TakenFor : IsolationKey → ℕ → Option CircuitPool → Type 0
TakenFor k r pool =
    (p : CircuitPool) × (c : Pooled) × (j : IsolationKey) × (pool ≡ some p)
    × (get_elem? p.heap r ≡ some c)
    × (c.isolation_key ≡ some j)
    × (equals (some j) (some k) ≡ true)

-- What is routed to a circuit is no onion service.
routed_regular :
    (hex_sum : List ℕ → List ℕ) (reached : Bool) (cfg : Config) (built : Option State)
    (target username : List ℕ) (port : Option ℕ) (pool : Option CircuitPool) (r : ℕ) (host : List ℕ)
    (n : ℕ)
    → (connect hex_sum reached cfg built target username port pool).1 ≡ routed r host n
    → connect hex_sum reached cfg built target username port pool
      ≡ connect_regular hex_sum cfg built target username port pool
unfolding connect
routed_regular hex_sum reached cfg built target username port pool r host n e =
    elim (Bool-cases (is_onion_address (host_of target))) [
      | inr o ↦ rw o refl
      | inl o ↦ absurd (
          not_routed reached r host n (
            subst
              (λ b.
                (if b
                  then (pool, if reached then onion_reached else refused 4)
                  else connect_regular hex_sum cfg built target username port pool).1
                ≡ routed r host n)
              o e))
    ]
  where
    not_routed :
        (reached : Bool) (r : ℕ) (host : List ℕ) (n : ℕ)
        → (if reached then onion_reached else refused 4) ≢ routed r host n
    not_routed true r host n h = cc
    not_routed false r host n h = cc

regular_isolated :
    (hex_sum : List ℕ → List ℕ) (cs : List PoolCall) (min max : ℕ) (cfg : Config)
    (built : Option State) (target username : List ℕ) (port : Option ℕ) (k : IsolationKey) (r : ℕ)
    (host : List ℕ) (n : ℕ)
    → All CallOk cs
    → k.source_port < 65536
    → wanted hex_sum cfg.isolation_level cfg target username port ≡ some k
    → let out =
        connect_regular hex_sum cfg built target username port
          (some (pool_calls cs (new_circuit_pool min max))) in
      out.1 ≡ routed r host n → TakenFor k r out.0
regular_isolated hex_sum cs min max cfg built target username port k r host n a b w e =
    let p = pool_calls cs (new_circuit_pool min max) in
    let same : isolation_key_for hex_sum cfg target username port ≡ some k =
      isolation_key_exact hex_sum cfg target username port ∙ w in
    let taken = get_with_isolation built (some k) p in
    let e2 =
      subst (λ o. (with_circuit target (get_with_isolation built o p)).1 ≡ routed r host n) same
        e in
    let (f, g) = routed-circuit target taken r host n e2 in
    let (c, j, h, i, q) =
      circuits_isolated cs min max built k r a b
        (wanted-HasLevel hex_sum cfg.isolation_level cfg target username port k w) f in
    (
      taken.0,
      c,
      j,
      ap (λ o. (with_circuit target (get_with_isolation built o p)).0) same ∙ g,
      h,
      i,
      q,
    )

-- A request that is isolated goes to a circuit whose key is equal to the one wanted for the request,
-- whatever calls were made on the pool before and whatever became of its circuits: no circuit serves
-- requests for two keys that differ. The source ports are uint16.
pub connect_isolated :
    (hex_sum : List ℕ → List ℕ) (cs : List PoolCall) (min max : ℕ) (cfg : Config) (reached : Bool)
    (built : Option State) (target username : List ℕ) (port : Option ℕ) (k : IsolationKey) (r : ℕ)
    (host : List ℕ) (n : ℕ)
    → All CallOk cs
    → k.source_port < 65536
    → wanted hex_sum cfg.isolation_level cfg target username port ≡ some k
    → let out =
        connect hex_sum reached cfg built target username port
          (some (pool_calls cs (new_circuit_pool min max))) in
      out.1 ≡ routed r host n → TakenFor k r out.0
connect_isolated hex_sum cs min max cfg reached built target username port k r host n a b w e =
    let pool = some (pool_calls cs (new_circuit_pool min max)) in
    let same = routed_regular hex_sum reached cfg built target username port pool r host n e in
    subst (λ o. TakenFor k r o.0) (sym same)
      (regular_isolated hex_sum cs min max cfg built target username port k r host n a b w
        (sym (ap (λ o. o.1) same) ∙ e))
