-- ===== src/Circuit/Dns/Answers.antt =====
-- The parser of RESOLVED cells, against the list of records that the bytes hold.
use go_tor.Prelude.{
  ℕ, zero, suc, ◌+◌, ◌≤◌, ◌<◌, ◌^◌, ◌≡◌, refl, sym, subst, ap, ap₂, ◌∙◌, inl, inr, true, false,
  List, [], ◌∷◌, ◌++◌, append_assoc, Result, err, ltb, ◌==◌, if◌then◌else◌, Bool-cases, length,
  length-append, take, drop, take-append_exact, drop-append_exact, drop-append_add,
  take-append-drop, length-take, length-drop, All, be32, of_be32-be32, be32-of_be32, IsByte,
  AreBytes, All-drop, arith,
}
use go_tor.Cell.Codec.{uint32_of}
use go_tor.Circuit.Dns.{
  DnsResult, DnsError, empty_data, incomplete_data, no_records, answer_of, or_next, parse_records,
  parse_resolved_cell,
}

-- A record of the cell.
pub record Answer : Type 0 where
  pub kind : ℕ
  pub value : List ℕ
  pub ttl : ℕ

pub IsAnswer : Answer → Type 0
IsAnswer a = (length a.value < 256) × (a.ttl < 2 ^ 32)

encode_answer : Answer → List ℕ
encode_answer a = a.kind ∷ length a.value ∷ (a.value ++ be32 a.ttl)

unfoldable pub encode_answers : List Answer → List ℕ
unfolding encode_answer
encode_answers [] = []
encode_answers (a ∷ xs) = encode_answer a ++ encode_answers xs

-- Bytes that hold no whole record: at most one, or a record that is cut off.
pub IsRest : List ℕ → Type 0
IsRest [] = Unit
IsRest (kind ∷ []) = Unit
IsRest (kind ∷ n ∷ bytes) = length bytes < n + 4

-- The first record of a known type answers; behind the last one, a record that is cut off is an error.
unfoldable pub first_answer : List Answer → List ℕ → Result DnsError DnsResult
first_answer [] [] = err no_records
first_answer [] (kind ∷ []) = err no_records
first_answer [] (kind ∷ n ∷ bytes) = err incomplete_data
first_answer (a ∷ xs) rest = or_next (answer_of a.kind a.value a.ttl) (first_answer xs rest)

parse_rest :
    (fuel : ℕ) (rest : List ℕ)
    → length rest ≤ fuel
    → IsRest rest
    → parse_records fuel rest ≡ first_answer [] rest
unfolding parse_records IsRest first_answer
parse_rest zero [] l h = refl
parse_rest zero (b ∷ rest) l h = absurd (omega arith)
parse_rest (suc fuel) [] l h = refl
parse_rest (suc fuel) (kind ∷ []) l h = refl
parse_rest (suc fuel) (kind ∷ n ∷ bytes) l h =
    let e : ltb (length bytes) (n + 4) ≡ true = ground arith in rw e refl

-- The parts of a record at the head of the bytes.
answer_parts :
    (a : Answer) (more : List ℕ)
    → IsAnswer a
    → let bytes = a.value ++ (be32 a.ttl ++ more) in
      (take (length a.value) bytes ≡ a.value)
      × (uint32_of (take 4 (drop (length a.value) bytes)) ≡ a.ttl)
      × (drop (length a.value + 4) bytes ≡ more)
      × (ltb (length bytes) (length a.value + 4) ≡ false)
unfolding IsAnswer
answer_parts a more h =
    let bytes = a.value ++ (be32 a.ttl ++ more) in
    let d : drop (length a.value) bytes ≡ be32 a.ttl ++ more =
      drop-append_exact (length a.value) a.value (be32 a.ttl ++ more) refl in
    let n : length bytes ≡ length a.value + length (be32 a.ttl ++ more) =
      length-append a.value (be32 a.ttl ++ more) in
    (
      take-append_exact (length a.value) a.value (be32 a.ttl ++ more) refl,
      ap (λ t. uint32_of (take 4 t)) d ∙ of_be32-be32 a.ttl h.1,
      drop-append_add (length a.value) 4 a.value (be32 a.ttl ++ more) refl,
      ground (arith, n),
    )

encode_answer_append :
    (a : Answer) (more : List ℕ)
    → encode_answer a ++ more ≡ a.kind ∷ length a.value ∷ (a.value ++ (be32 a.ttl ++ more))
unfolding encode_answer
encode_answer_append a more =
    ap (λ t. a.kind ∷ length a.value ∷ t) (append_assoc a.value (be32 a.ttl) more)

parse_records_step :
    (fuel : ℕ) (a : Answer) (more : List ℕ)
    → IsAnswer a
    → parse_records (suc fuel) (a.kind ∷ length a.value ∷ (a.value ++ (be32 a.ttl ++ more)))
      ≡ or_next (answer_of a.kind a.value a.ttl) (parse_records fuel more)
unfolding parse_records
parse_records_step fuel a more h = let (p, q, r, s) = answer_parts a more h in rw (s, p, q, r) refl

-- One round, where the rounds after it are exact.
parse_records_cons :
    (fuel : ℕ) (x : Answer) (xs : List Answer) (rest : List ℕ)
    → IsAnswer x
    → ((f : ℕ)
        → length (encode_answers xs ++ rest) ≤ f
        → parse_records f (encode_answers xs ++ rest) ≡ first_answer xs rest)
    → suc (length (encode_answers xs ++ rest)) ≤ fuel
    → parse_records fuel
        (x.kind ∷ length x.value ∷ (x.value ++ (be32 x.ttl ++ (encode_answers xs ++ rest))))
      ≡ first_answer (x ∷ xs) rest
unfolding first_answer
parse_records_cons zero x xs rest a ih l = absurd (omega arith)
parse_records_cons (suc fuel) x xs rest a ih l =
    parse_records_step fuel x (encode_answers xs ++ rest) a
    ∙ ap (or_next (answer_of x.kind x.value x.ttl)) (ih fuel (omega arith))

parse_records_exact :
    (fuel : ℕ) (xs : List Answer) (rest : List ℕ)
    → All IsAnswer xs
    → IsRest rest
    → length (encode_answers xs ++ rest) ≤ fuel
    → parse_records fuel (encode_answers xs ++ rest) ≡ first_answer xs rest
unfolding encode_answers
parse_records_exact fuel [] rest a h l = parse_rest fuel rest l h
parse_records_exact fuel (x ∷ xs) rest a h l =
    let more = encode_answers xs ++ rest in
    let whole =
      append_assoc (encode_answer x) (encode_answers xs) rest ∙ encode_answer_append x more in
    let n : length (encode_answers (x ∷ xs) ++ rest)
        ≡ suc (suc (length (x.value ++ (be32 x.ttl ++ more)))) =
      ap length whole in
    let m = length-append x.value (be32 x.ttl ++ more) in
    subst (λ t. parse_records fuel t ≡ first_answer (x ∷ xs) rest) (sym whole)
      (parse_records_cons fuel x xs rest a.0 (λ f k. parse_records_exact f xs rest a.1 h k)
        (omega (arith, n, m, l)))

-- The four bytes of a time to live, read and written again.
ttl_bytes :
    (bytes : List ℕ)
    → AreBytes bytes
    → 4 ≤ length bytes
    → (be32 (uint32_of (take 4 bytes)) ++ drop 4 bytes ≡ bytes)
      × (uint32_of (take 4 bytes) < 2 ^ 32)
ttl_bytes (a ∷ b ∷ c ∷ d ∷ bytes) (ha, (hb, (hc, (hd, _)))) l =
    (ap (λ t. t ++ bytes) (be32-of_be32 a b c d ha hb hc hd), omega arith)
ttl_bytes [] h l = absurd (omega arith)
ttl_bytes (a ∷ []) h l = absurd (omega arith)
ttl_bytes (a ∷ b ∷ []) h l = absurd (omega arith)
ttl_bytes (a ∷ b ∷ c ∷ []) h l = absurd (omega arith)

drop-nil : (m : ℕ) → drop {A = ℕ} m [] ≡ []
drop-nil zero = refl
drop-nil (suc m) = refl

drop-drop : (m n : ℕ) (xs : List ℕ) → drop (n + m) xs ≡ drop m (drop n xs)
drop-drop m zero xs = let e : 0 + m ≡ m = omega arith in rw e
drop-drop m (suc n) [] = drop-nil (suc n + m) ∙ sym (drop-nil m)
drop-drop m (suc n) (x ∷ xs) =
    let e : suc n + m ≡ suc (n + m) = omega arith in rw e (drop-drop m n xs)

-- The bytes of a cell as records and a rest.
IsSplit : List ℕ → Type 0
IsSplit bytes =
    (xs : List Answer) × (rest : List ℕ) × All IsAnswer xs
    × IsRest rest
    × (bytes ≡ encode_answers xs ++ rest)

IsSplit-cons :
    (kind n : ℕ) (bytes : List ℕ)
    → n < 256
    → AreBytes bytes
    → n + 4 ≤ length bytes
    → IsSplit (drop (n + 4) bytes)
    → IsSplit (kind ∷ n ∷ bytes)
unfolding IsSplit encode_answers IsAnswer
IsSplit-cons kind n bytes b h l (xs, rest, a, r, e) =
    let four =
      ttl_bytes (drop n bytes) (All-drop IsByte n bytes h) (omega (arith, length-drop n bytes)) in
    let x : Answer = record {
      kind = kind;
      value = take n bytes;
      ttl = uint32_of (take 4 (drop n bytes));
    } in
    let len : length (take n bytes) ≡ n = omega (arith, length-take n bytes) in
    let tail : drop 4 (drop n bytes) ≡ encode_answers xs ++ rest = sym (drop-drop 4 n bytes) ∙ e in
    let more = encode_answers xs ++ rest in
    let body : bytes ≡ take n bytes ++ (be32 x.ttl ++ more) =
      sym (take-append-drop n bytes)
      ∙ ap (λ t. take n bytes ++ t) (sym four.0 ∙ ap (λ t. be32 x.ttl ++ t) tail) in
    let whole =
      append_assoc (encode_answer x) (encode_answers xs) rest ∙ encode_answer_append x more in
    (
      x ∷ xs,
      rest,
      ((omega (arith, len), four.1), a),
      r,
      ap₂ (λ k t. kind ∷ k ∷ t) (sym len) body ∙ sym whole,
    )

IsSplit-bytes : (fuel : ℕ) (bytes : List ℕ) → AreBytes bytes → length bytes ≤ fuel → IsSplit bytes
unfolding IsSplit encode_answers IsRest
IsSplit-bytes fuel [] h l = ([], [], tt, tt, refl)
IsSplit-bytes fuel (kind ∷ []) h l = ([], kind ∷ [], tt, tt, refl)
IsSplit-bytes zero (kind ∷ n ∷ bytes) h l = absurd (omega arith)
IsSplit-bytes (suc fuel) (kind ∷ n ∷ bytes) h l = elim (Bool-cases (ltb (length bytes) (n + 4))) [
  | inl e ↦ ([], kind ∷ n ∷ bytes, tt, ground arith, refl)
  | inr e ↦ IsSplit-cons kind n bytes h.1.0 h.1.1 (ground arith) (
      IsSplit-bytes fuel (drop (n + 4) bytes) (All-drop IsByte (n + 4) bytes h.1.1)
        (omega (arith, length-drop (n + 4) bytes)))
]

-- Every payload is a list of records and a rest without a whole record, and the parser answers with
-- the first record of a known type, or the error of what is behind the records; an empty payload is an
-- error of its own.
pub parse_resolved_cell_exact :
    (bytes : List ℕ)
    → AreBytes bytes
    → (xs : List Answer) × (rest : List ℕ) × All IsAnswer xs
      × IsRest rest
      × (bytes ≡ encode_answers xs ++ rest)
      × (parse_resolved_cell bytes
          ≡ (if length bytes == 0 then err empty_data else first_answer xs rest))
unfolding parse_resolved_cell IsSplit
parse_resolved_cell_exact bytes h =
    let (xs, rest, a, r, e) = IsSplit-bytes (length bytes) bytes h (omega arith) in
    let l : length (encode_answers xs ++ rest) ≤ length bytes = omega (arith, ap length e) in
    let p =
      subst (λ t. parse_records (length bytes) t ≡ first_answer xs rest) (sym e)
        (parse_records_exact (length bytes) xs rest a r l) in
    (xs, rest, a, r, e, ap (λ t. if length bytes == 0 then err empty_data else t) p)
