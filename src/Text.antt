-- ===== src/Text.antt =====
-- What the parsers of text use of the packages strings and fmt, on strings in ASCII.
use go_tor.Prelude.{
  ℕ, ◌+◌, ◌-◌, ◌*◌, Bool, ◌&&◌, ◌||◌, List, [], ◌∷◌, ◌++◌, Option, none, some, leb, ◌==◌,
  if◌then◌else◌,
}
use go_tor.Security.Int.{ℤ, pos, negsuc}

-- `strings.Fields`: the words between spaces and the controls from tab to carriage return.
abbrev pub is_space : ℕ → Bool
is_space c = c == 32 || leb 9 c && leb c 13

abbrev pub end_word : List ℕ → List (List ℕ) → List (List ℕ)
end_word [] rest = rest
end_word (c ∷ cs) rest = (c ∷ cs) ∷ rest

unfoldable pub fields_after : List ℕ → List ℕ → List (List ℕ)
fields_after word [] = end_word word []
fields_after word (c ∷ cs) =
    let within = fields_after (word ++ (c ∷ [])) cs in
    let beyond = fields_after [] cs in if is_space c then end_word word beyond else within

unfoldable pub fields : List ℕ → List (List ℕ)
unfolding fields_after
fields = fields_after []

-- `fmt.Sscanf(s, "%d", &v)` on an int: a sign, then digits up to the first other byte. `none` where
-- there is no digit or the number has more than 64 bits.
unfoldable pub digits : Option ℕ → List ℕ → Option ℕ
digits v [] = v
digits v (c ∷ cs) =
    let next = digits (some (elim v [ none ↦ 0 | some n ↦ n ] * 10 + (c - 48))) cs in
    if leb 48 c && leb c 57 then next else v

abbrev positive : Option ℕ → Option ℤ
positive none = none
positive (some n) = if leb n 9223372036854775807 then some (pos n) else none

abbrev negated : Option ℕ → Option ℤ
negated none = none
negated (some n) =
    if n == 0
    then some (pos 0)
    else if leb n 9223372036854775808
    then some (negsuc (n - 1))
    else none

unfoldable pub scan_int : List ℕ → Option ℤ
unfolding digits
scan_int [] = none
scan_int (c ∷ cs) =
    if c == 45
    then negated (digits none cs)
    else if c == 43
    then positive (digits none cs)
    else positive (digits none (c ∷ cs))
