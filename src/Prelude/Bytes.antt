-- ===== src/Prelude/Bytes.antt =====
-- Bytes, and the big-endian integers of encoding/binary.
use Prim.Native.Nat.{ℕ, ◌+◌, ◌*◌, ◌/◌, ◌%◌, ◌^◌, ◌<◌}
use mathlib.Core.Path.{◌≡◌, refl, ap₂}
use mathlib.Core.Bool.{Bool, true, false, ◌&&◌}
use mathlib.Core.List.{List, [], ◌∷◌}
use native.Mathlib.Omega.{arith}
use go_tor.Prelude.Lists.{All}
use go_tor.Prelude.Tests.{◌==◌}

abbrev pub IsByte : ℕ → Type 0
IsByte b = b < 256

abbrev pub AreBytes : List ℕ → Type 0
AreBytes = All IsByte

-- `binary.BigEndian.PutUint16` and `Uint16`
abbrev pub be16 : ℕ → List ℕ
be16 v = v / 2 ^ 8 % 256 ∷ v % 256 ∷ []

abbrev pub of_be16 : ℕ → ℕ → ℕ
of_be16 a b = a * 256 + b

-- `binary.BigEndian.PutUint32` and `Uint32`
abbrev pub be32 : ℕ → List ℕ
be32 v = v / 2 ^ 24 % 256 ∷ v / 2 ^ 16 % 256 ∷ v / 2 ^ 8 % 256 ∷ v % 256 ∷ []

abbrev pub of_be32 : ℕ → ℕ → ℕ → ℕ → ℕ
of_be32 a b c d = ((a * 256 + b) * 256 + c) * 256 + d

pub of_be16-be16 : (v : ℕ) → v < 2 ^ 16 → of_be16 (v / 2 ^ 8 % 256) (v % 256) ≡ v
of_be16-be16 v h = omega arith

pub of_be32-be32 :
    (v : ℕ)
    → v < 2 ^ 32
    → of_be32 (v / 2 ^ 24 % 256) (v / 2 ^ 16 % 256) (v / 2 ^ 8 % 256) (v % 256) ≡ v
of_be32-be32 v h = omega arith

pub be16-of_be16 : (a b : ℕ) → IsByte a → IsByte b → be16 (of_be16 a b) ≡ a ∷ b ∷ []
be16-of_be16 a b ha hb = ap₂ (λ x y. x ∷ y ∷ []) (omega arith) (omega arith)

pub be32-of_be32 :
    (a b c d : ℕ)
    → IsByte a
    → IsByte b
    → IsByte c
    → IsByte d
    → be32 (of_be32 a b c d) ≡ a ∷ b ∷ c ∷ d ∷ []
be32-of_be32 a b c d ha hb hc hd =
    let e : of_be32 a b c d / 2 ^ 24 % 256 ≡ a = omega arith in
    let f : of_be32 a b c d / 2 ^ 16 % 256 ≡ b = omega arith in
    let g : of_be32 a b c d / 2 ^ 8 % 256 ≡ c = omega arith in
    let h : of_be32 a b c d % 256 ≡ d = omega arith in λ i. e i ∷ f i ∷ g i ∷ h i ∷ []

-- `bytes.Equal`, and `==` on arrays
unfoldable pub bytes_eq : List ℕ → List ℕ → Bool
bytes_eq [] [] = true
bytes_eq [] (y ∷ ys) = false
bytes_eq (x ∷ xs) [] = false
bytes_eq (x ∷ xs) (y ∷ ys) = x == y && bytes_eq xs ys

pub bytes_eq→eq : (xs ys : List ℕ) → bytes_eq xs ys ≡ true → xs ≡ ys
unfolding bytes_eq
bytes_eq→eq [] [] h = refl
bytes_eq→eq [] (y ∷ ys) h = cc
bytes_eq→eq (x ∷ xs) [] h = cc
bytes_eq→eq (x ∷ xs) (y ∷ ys) h = ground (arith, bytes_eq→eq xs ys)

pub bytes_eq_refl : (xs : List ℕ) → bytes_eq xs xs ≡ true
unfolding bytes_eq
bytes_eq_refl [] = refl
bytes_eq_refl (x ∷ xs) = ground (arith, bytes_eq_refl xs)
