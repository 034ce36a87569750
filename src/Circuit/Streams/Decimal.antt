-- ===== src/Circuit/Streams/Decimal.antt =====
-- A number is read back from its decimal digits, so that different numbers have different digits.
use go_tor.Prelude.{
  ℕ, zero, suc, ◌+◌, ◌-◌, ◌*◌, ◌/◌, ◌%◌, ◌<◌, ◌≡◌, inl, inr, refl, sym, ap, ◌∙◌, true, false,
  Bool-cases, List, [], ◌∷◌, ◌++◌, ltb, arith,
}
use go_tor.Circuit.Streams.{decimal}

value_from : ℕ → List ℕ → ℕ
value_from acc [] = acc
value_from acc (x ∷ xs) = value_from (acc * 10 + (x - 48)) xs

value_from-append :
    (acc : ℕ) (xs : List ℕ) (x : ℕ)
    → value_from acc (xs ++ (x ∷ [])) ≡ value_from acc xs * 10 + (x - 48)
unfolding value_from
value_from-append acc [] x = refl
value_from-append acc (y ∷ ys) x = value_from-append (acc * 10 + (y - 48)) ys x

unfoldable pub power_of_ten : ℕ → ℕ
power_of_ten zero = 1
power_of_ten (suc n) = 10 * power_of_ten n

pub decimal_short : (fuel n : ℕ) → ltb n 10 ≡ true → decimal (suc fuel) n ≡ (48 + n) ∷ []
unfolding decimal
decimal_short fuel n h = rw h refl

pub decimal_long :
    (fuel n : ℕ)
    → ltb n 10 ≡ false
    → decimal (suc fuel) n ≡ decimal fuel (n / 10) ++ ((48 + n % 10) ∷ [])
unfolding decimal
decimal_long fuel n h = rw h refl

value_from-decimal : (fuel n : ℕ) → n < power_of_ten fuel → value_from 0 (decimal fuel n) ≡ n
unfolding value_from power_of_ten decimal
value_from-decimal zero n h = omega arith
value_from-decimal (suc fuel) n h = elim (Bool-cases (ltb n 10)) [
  | inl s ↦ rw (decimal_short fuel n s) (omega arith)
  | inr l ↦
      let ih = value_from-decimal fuel (n / 10) (omega arith) in
      let e = value_from-append 0 (decimal fuel (n / 10)) (48 + n % 10) in
      rw (decimal_long fuel n l, e, ih) (omega arith)
]

pub decimal_injective : (m n : ℕ) → m < 65536 → n < 65536 → decimal 5 m ≡ decimal 5 n → m ≡ n
unfolding power_of_ten
decimal_injective m n h k e =
    sym (value_from-decimal 5 m (omega arith))
    ∙ ap (value_from 0) e
    ∙ value_from-decimal 5 n (omega arith)
