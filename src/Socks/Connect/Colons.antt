-- ===== src/Socks/Connect/Colons.antt =====
-- The host and the port that are read back from the target of a request.
use go_tor.Prelude.{
  ℕ, zero, suc, ◌+◌, ◌-◌, ◌*◌, ◌/◌, ◌%◌, ◌<◌, ◌≤◌, ◌≡◌, refl, ap, ◌∙◌, inl, inr, Bool, true, false,
  List, [], ◌∷◌, ◌++◌, Option, none, some, ltb, leb, ◌==◌, if◌then◌else◌, Bool-cases, All,
  All-append, arith,
}
use go_tor.Prelude.Subset.{elem}
use go_tor.Text.{digits}
use go_tor.Circuit.Core.{State}
use go_tor.Circuit.Streams.{decimal}
use go_tor.Circuit.Streams.Decimal.{decimal_short, decimal_long, power_of_ten}
use go_tor.Pool.{CircuitPool, get_with_isolation}
use go_tor.Socks.Connect.{
  Config, isolation_key_for, or_split, in_front, split_last, split_host_port, unbracketed, or_none,
  as_uint16, refused, routed, route_to, with_port_number, with_circuit, connect, connect_regular,
  is_onion_address, host_of, host_or, onion_reached, Route,
}

abbrev IsDigit : ℕ → Type 0
IsDigit c = (48 ≤ c) × (c ≤ 57)

-- A port that is printed is scanned as the same number.
decimal-IsDigit : (fuel n : ℕ) → All IsDigit (decimal fuel n)
unfolding decimal
decimal-IsDigit zero n = tt
decimal-IsDigit (suc fuel) n = elim (Bool-cases (ltb n 10)) [
  | inl e ↦
      let d : IsDigit (48 + n) = (omega arith, ground arith) in rw (decimal_short fuel n e) (d, tt)
  | inr e ↦
      let d : IsDigit (48 + n % 10) = (omega arith, omega arith) in
      rw (decimal_long fuel n e)
        (All-append IsDigit (decimal fuel (n / 10)) _ (decimal-IsDigit fuel (n / 10)) (d, tt))
]

elem_digits : (b : ℕ) (xs : List ℕ) → 57 < b → All IsDigit xs → elem b xs ≡ false
unfolding elem
elem_digits b [] h d = refl
elem_digits b (x ∷ xs) h d = let ih = elem_digits b xs h d.1 in ground arith

digits-append :
    (v : Option ℕ) (xs ys : List ℕ) → All IsDigit xs → digits v (xs ++ ys) ≡ digits (digits v xs) ys
unfolding digits
digits-append v [] ys d = refl
digits-append v (x ∷ xs) ys d =
    let e : leb 48 x ≡ true = ground arith in
    let f : leb x 57 ≡ true = ground arith in
    rw (e, f) (digits-append (some (elim v [ none ↦ 0 | some n ↦ n ] * 10 + (x - 48))) xs ys d.1)

digits_one :
    (v : Option ℕ) (d : ℕ)
    → d < 10
    → digits v ((48 + d) ∷ []) ≡ some (elim v [ none ↦ 0 | some n ↦ n ] * 10 + d)
unfolding digits
digits_one v d h =
    let e : leb 48 (48 + d) ≡ true = ground arith in
    let f : leb (48 + d) 57 ≡ true = ground arith in
    let g : 48 + d - 48 ≡ d = omega arith in rw (e, f, g) refl

digits-decimal :
    (fuel n : ℕ) → n < power_of_ten (suc fuel) → digits none (decimal (suc fuel) n) ≡ some n
unfolding power_of_ten
digits-decimal zero n h =
    let e : ltb n 10 ≡ true = ground arith in
    rw (decimal_short 0 n e) (digits_one none n (omega arith) ∙ ap some (omega arith))
digits-decimal (suc fuel) n h = elim (Bool-cases (ltb n 10)) [
  | inl e ↦
      rw (decimal_short (suc fuel) n e) (digits_one none n (ground arith) ∙ ap some (omega arith))
  | inr e ↦ rw (decimal_long (suc fuel) n e) (
      digits-append none (decimal (suc fuel) (n / 10)) ((48 + n % 10) ∷ [])
        (decimal-IsDigit (suc fuel) (n / 10))
      ∙ ap (λ v. digits v ((48 + n % 10) ∷ [])) (digits-decimal fuel (n / 10) (omega arith))
      ∙ digits_one (some (n / 10)) (n % 10) (omega arith)
      ∙ ap some (omega arith))
]

split_last-none : (xs : List ℕ) → elem 58 xs ≡ false → split_last 58 xs ≡ none
unfolding split_last elem
split_last-none [] h = refl
split_last-none (x ∷ xs) h =
    let ih = split_last-none xs (ground arith) in
    let e : (x == 58) ≡ false = ground arith in rw (ih, e) refl

split_last-exact :
    (before after : List ℕ)
    → elem 58 after ≡ false
    → split_last 58 (before ++ (58 ∷ after)) ≡ some (before, after)
unfolding split_last
split_last-exact [] after h = rw (split_last-none after h) refl
split_last-exact (x ∷ before) after h =
    ap (λ o. or_split (in_front x o) (if x == 58 then some ([], before ++ (58 ∷ after)) else none))
      (split_last-exact before after h)

-- The text of a port has no colon and no bracket.
port_plain : (b port : ℕ) → 57 < b → elem b (decimal 5 port) ≡ false
port_plain b port h = elem_digits b (decimal 5 port) h (decimal-IsDigit 5 port)

abbrev pub first_is : ℕ → List ℕ → Bool
first_is b [] = false
first_is b (x ∷ xs) = x == b

split_plain :
    (host port : List ℕ)
    → first_is 91 host ≡ false
    → elem 58 port ≡ false
    → split_host_port (host ++ (58 ∷ port)) ≡ unbracketed host port
unfolding split_host_port
split_plain [] port n h =
    ap (λ o. or_none o (λ p. unbracketed p.0 p.1)) (split_last-exact [] port h)
split_plain (c ∷ host) port n h =
    rw n (ap (λ o. or_none o (λ p. unbracketed p.0 p.1)) (split_last-exact (c ∷ host) port h))

first_of_elem : (b : ℕ) (xs : List ℕ) → elem b xs ≡ false → first_is b xs ≡ false
unfolding elem
first_of_elem b [] h = refl
first_of_elem b (x ∷ xs) h = ground arith

small_port :
    (r : ℕ) (host : List ℕ) (port : ℕ)
    → port < 65536
    → with_port_number r host (as_uint16 (some port)) ≡ routed r host port
small_port r host port l = let e : ltb port 65536 ≡ true = ground arith in rw e refl

unsplit_refused :
    (target : List ℕ) (x : CircuitPool × Option ℕ)
    → split_host_port target ≡ none
    → (with_circuit target x).1 ≡ refused 1
unsplit_refused target (p, none) h = refl
unsplit_refused target (p, some r) h = ap (route_to r) h

regular_unsplit :
    (hex_sum : List ℕ → List ℕ) (cfg : Config) (built : Option State) (target username : List ℕ)
    (source : Option ℕ) (pool : Option CircuitPool)
    → split_host_port target ≡ none
    → (connect_regular hex_sum cfg built target username source pool).1 ≡ refused 1
regular_unsplit hex_sum cfg built target username source none h = refl
regular_unsplit hex_sum cfg built target username source (some p) h =
    unsplit_refused target
      (get_with_isolation built (isolation_key_for hex_sum cfg target username source) p) h

-- The host is what stands before the colon of the port.
host_of-exact : (host : List ℕ) (port : ℕ) → host_of (host ++ (58 ∷ decimal 5 port)) ≡ host
unfolding host_of
host_of-exact host port =
    ap (λ o. host_or (host ++ (58 ∷ decimal 5 port)) o)
      (split_last-exact host (decimal 5 port) (port_plain 58 port (omega arith)))

-- The two ways of a request by its host.
connect_onion :
    (hex_sum : List ℕ → List ℕ) (reached : Bool) (cfg : Config) (built : Option State)
    (host : List ℕ) (port : ℕ) (username : List ℕ) (source : Option ℕ) (pool : Option CircuitPool)
    → is_onion_address host ≡ true
    → connect hex_sum reached cfg built (host ++ (58 ∷ decimal 5 port)) username source pool
      ≡ (pool, if reached then onion_reached else refused 4)
unfolding connect
connect_onion hex_sum reached cfg built host port username source pool h =
    let e = ap is_onion_address (host_of-exact host port) ∙ h in rw e refl

connect_other :
    (hex_sum : List ℕ → List ℕ) (reached : Bool) (cfg : Config) (built : Option State)
    (host : List ℕ) (port : ℕ) (username : List ℕ) (source : Option ℕ) (pool : Option CircuitPool)
    → is_onion_address host ≡ false
    → connect hex_sum reached cfg built (host ++ (58 ∷ decimal 5 port)) username source pool
      ≡ connect_regular hex_sum cfg built (host ++ (58 ∷ decimal 5 port)) username source pool
unfolding connect
connect_other hex_sum reached cfg built host port username source pool h =
    let e = ap is_onion_address (host_of-exact host port) ∙ h in rw e refl

-- A host without colons and brackets is read back with its port.
plain_routed :
    (host : List ℕ) (port : ℕ)
    → port < 65536
    → elem 58 host ≡ false
    → elem 91 host ≡ false
    → elem 93 host ≡ false
    → (r : ℕ) → route_to r (split_host_port (host ++ (58 ∷ decimal 5 port))) ≡ routed r host port
unfolding power_of_ten
plain_routed host port l a b c r =
    let s : unbracketed host (decimal 5 port) ≡ some (host, decimal 5 port) =
      rw (a, b, c, port_plain 91 port (omega arith), port_plain 93 port (omega arith)) refl in
    ap (route_to r) (
      split_plain host (decimal 5 port) (first_of_elem 91 host b) (port_plain 58 port (omega arith))
      ∙ s)
    ∙ ap (λ o. with_port_number r host (as_uint16 o)) (digits-decimal 4 port (omega arith))
    ∙ small_port r host port l

taken_routed :
    (target : List ℕ) (x : CircuitPool × Option ℕ) (r : ℕ) (route : Route)
    → x.1 ≡ some r
    → route_to r (split_host_port target) ≡ route
    → (with_circuit target x).1 ≡ route
taken_routed target (p, none) r route h e = absurd (cc)
taken_routed target (p, some q) r route h e =
    let f : q ≡ r = ground arith in ap (λ t. route_to t (split_host_port target)) f ∙ e

module _ (hex_sum : List ℕ → List ℕ) (reached : Bool) (cfg : Config) (built : Option State)
    (host : List ℕ) (port : ℕ) (username : List ℕ) (source : Option ℕ) where
  -- What becomes of a CONNECT request for a host and a port.
  abbrev pub connected : Option CircuitPool → Option CircuitPool × Route
  connected pool =
      connect hex_sum reached cfg built (host ++ (58 ∷ decimal 5 port)) username source pool

  -- A CONNECT request whose target is a host, a colon and a port, by its host. One that ends in .onion
  -- leaves the pool as it is and is answered with success or, where the service is not reached, as
  -- unreachable. Any other host without colons and brackets is routed as it is with its port, on the
  -- circuit that the pool hands out for the request. Any other host with a colon that does not start
  -- with a bracket, as the text of an IPv6 address, is refused with a general failure, whatever the
  -- configuration, the pool and the circuit builder.
  pub target_colons :
      port < 65536
      → (is_onion_address host ≡ true
          → (pool : Option CircuitPool)
          → connected pool ≡ (pool, if reached then onion_reached else refused 4))
        × (is_onion_address host ≡ false
            → elem 58 host ≡ false
            → elem 91 host ≡ false
            → elem 93 host ≡ false
            → (p : CircuitPool) (r : ℕ)
            → (get_with_isolation built
                (isolation_key_for hex_sum cfg (host ++ (58 ∷ decimal 5 port)) username source)
                p).1
              ≡ some r
            → (connected (some p)).1 ≡ routed r host port)
        × (is_onion_address host ≡ false
            → elem 58 host ≡ true
            → first_is 91 host ≡ false
            → (pool : Option CircuitPool) → (connected pool).1 ≡ refused 1)
  target_colons l = (
    λ o pool. connect_onion hex_sum reached cfg built host port username source pool o,
    λ o a b c p r h.
        ap (λ x. x.1) (connect_other hex_sum reached cfg built host port username source (some p) o)
        ∙ taken_routed (host ++ (58 ∷ decimal 5 port)) _ r (routed r host port) h
            (plain_routed host port l a b c r),
    λ o a d pool.
        ap (λ x. x.1) (connect_other hex_sum reached cfg built host port username source pool o)
        ∙ regular_unsplit hex_sum cfg built (host ++ (58 ∷ decimal 5 port)) username source pool (
            let s : unbracketed host (decimal 5 port) ≡ none = rw a refl in
            split_plain host (decimal 5 port) d (port_plain 58 port (omega arith)) ∙ s),
  )
