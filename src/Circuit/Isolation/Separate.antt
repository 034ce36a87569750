-- ===== src/Circuit/Isolation/Separate.antt =====
-- The string that circuits are looked up by separates exactly the keys that are not equal.
use go_tor.Prelude.{
  ℕ, ◌<◌, ◌≡◌, ◌↔◌, inl, inr, refl, sym, subst, ap, ◌∙◌, true, false, Bool-cases, List, [], ◌∷◌,
  some, ◌==◌, bytes_eq, bytes_eq→eq, if◌then◌else◌, drop, arith,
}
use go_tor.Circuit.Streams.{decimal}
use go_tor.Circuit.Streams.Decimal.{decimal_injective}
use go_tor.Circuit.Isolation.{
  IsolationLevel, IsolationKey, isolation_none, isolation_destination, isolation_credential,
  isolation_port, isolation_session, key_at, key, level_number, equals_at, equals,
}

-- The level's number read back from the first byte of the string, and the level from its number.
first_number : List ℕ → ℕ
first_number [] = 0
first_number (b ∷ bs) = if b == 100 then 1 else if b == 99 then 2 else if b == 112 then 3 else 4

first_number-key_at :
    (l : IsolationLevel) (k : IsolationKey) → first_number (key_at l k) ≡ level_number l
unfolding first_number key_at level_number
first_number-key_at isolation_none k = refl
first_number-key_at isolation_destination k = refl
first_number-key_at isolation_credential k = refl
first_number-key_at isolation_port k = refl
first_number-key_at isolation_session k = refl

level_of : ℕ → IsolationLevel
level_of n =
    if n == 0
    then isolation_none
    else if n == 1
    then isolation_destination
    else if n == 2
    then isolation_credential
    else if n == 3
    then isolation_port
    else isolation_session

level_of-level_number : (l : IsolationLevel) → level_of (level_number l) ≡ l
unfolding level_of level_number
level_of-level_number isolation_none = refl
level_of-level_number isolation_destination = refl
level_of-level_number isolation_credential = refl
level_of-level_number isolation_port = refl
level_of-level_number isolation_session = refl

level_number_injective : (l o : IsolationLevel) → level_number l ≡ level_number o → l ≡ o
level_number_injective l o e =
    sym (level_of-level_number l) ∙ ap level_of e ∙ level_of-level_number o

bytes_eq_same : (xs : List ℕ) → bytes_eq xs xs ≡ true
unfolding bytes_eq
bytes_eq_same [] = refl
bytes_eq_same (x ∷ xs) = let ih = bytes_eq_same xs in ground arith

bytes_eq_iff : (xs ys : List ℕ) → (xs ≡ ys) ↔ (bytes_eq xs ys ≡ true)
bytes_eq_iff xs ys =
    (λ e. subst (λ t. bytes_eq xs t ≡ true) e (bytes_eq_same xs), bytes_eq→eq xs ys)

same_level :
    (l : IsolationLevel) (a b : IsolationKey)
    → a.source_port < 65536
    → b.source_port < 65536
    → (key_at l a ≡ key_at l b) ↔ (equals_at l a b ≡ true)
unfolding key_at equals_at
same_level isolation_none a b h k = (λ _. refl, λ _. refl)
same_level isolation_destination a b h k =
    let i = bytes_eq_iff a.destination b.destination in
    (λ e. i.0 (ap (drop 5) e), λ e. ap (λ t. 100 ∷ 101 ∷ 115 ∷ 116 ∷ 58 ∷ t) (i.1 e))
same_level isolation_credential a b h k =
    let i = bytes_eq_iff a.credentials b.credentials in
    (λ e. i.0 (ap (drop 6) e), λ e. ap (λ t. 99 ∷ 114 ∷ 101 ∷ 100 ∷ 115 ∷ 58 ∷ t) (i.1 e))
same_level isolation_port a b h k = (
  λ e. (let p = decimal_injective a.source_port b.source_port h k (ap (drop 5) e) in ground arith),
  λ e.
      (let p : a.source_port ≡ b.source_port = ground arith in
        ap (λ n. 112 ∷ 111 ∷ 114 ∷ 116 ∷ 58 ∷ decimal 5 n) p),
)
same_level isolation_session a b h k =
    let i = bytes_eq_iff a.session_token b.session_token in
    (
      λ e. i.0 (ap (drop 8) e),
      λ e. ap (λ t. 115 ∷ 101 ∷ 115 ∷ 115 ∷ 105 ∷ 111 ∷ 110 ∷ 58 ∷ t) (i.1 e),
    )

equals_same :
    (a b : IsolationKey)
    → (level_number a.level == level_number b.level) ≡ true
    → equals (some a) (some b) ≡ equals_at a.level a b
unfolding equals
equals_same a b e = rw e refl

equals_other :
    (a b : IsolationKey)
    → (level_number a.level == level_number b.level) ≡ false
    → equals (some a) (some b) ≡ false
unfolding equals
equals_other a b e = rw e refl

-- Two keys have the same lookup string exactly when they are equal: streams share circuits only where
-- level and the field of that level agree. The source ports are uint16.
pub key-separates :
    (a b : IsolationKey)
    → a.source_port < 65536
    → b.source_port < 65536
    → (key (some a) ≡ key (some b)) ↔ (equals (some a) (some b) ≡ true)
unfolding key
key-separates a b h k = elim (Bool-cases (level_number a.level == level_number b.level)) [
  | inl e ↦
      let l : a.level ≡ b.level = level_number_injective a.level b.level (ground arith) in
      subst (λ t. (key_at a.level a ≡ key_at t b) ↔ (equals (some a) (some b) ≡ true)) l
        (subst (λ t. (key_at a.level a ≡ key_at a.level b) ↔ (t ≡ true)) (sym (equals_same a b e))
          (same_level a.level a b h k))
  | inr e ↦ (
    λ p. absurd (
        let q =
          sym (first_number-key_at a.level a) ∙ ap first_number p ∙ first_number-key_at b.level b in
        ground arith),
    λ p. absurd (let q = equals_other a b e in cc),
  )
]
