-- ===== src/Directory/Entries.antt =====
-- pkg/directory/directory.go: the entries that a consensus names, read without the shared records,
-- and the heap that the parser appends to.
use go_tor.Prelude.{
  ℕ, zero, suc, ◌<◌, ◌≡◌, refl, sym, ap, ap₂, ◌∙◌, List, [], ◌∷◌, ◌++◌, map, Option, none, some,
  ltb, if◌then◌else◌, length, get_elem?, set, replicate, All, arith,
}
use go_tor.Directory.{
  Relay, Line, router, status, other, line_of, Parser, relay_of, parse_line, parse_lines, deref,
}

-- The relays of the lines: each well-formed entry takes the flags of the last status line before the
-- next well-formed entry, and stands in the result once more for each malformed entry in between.
unfoldable pub entries_of : Relay → ℕ → List Line → List Relay
entries_of r n [] = replicate (suc n) r
entries_of r n (router parts ∷ ls) =
    let again = entries_of r (suc n) ls in
    let next = entries_of (relay_of parts) 0 ls in
    if ltb (length parts) 9 then again else replicate (suc n) r ++ next
entries_of r n (status flags ∷ ls) = entries_of (record r { flags = flags }) n ls
entries_of r n (other ∷ ls) = entries_of r n ls

unfoldable pub entries : List Line → List Relay
unfolding entries_of
entries [] = []
entries (router parts ∷ ls) =
    let skipped = entries ls in
    if ltb (length parts) 9 then skipped else entries_of (relay_of parts) 0 ls
entries (status flags ∷ ls) = entries ls
entries (other ∷ ls) = entries ls

unfoldable pub routers : List Line → ℕ
routers [] = 0
routers (router parts ∷ ls) = suc (routers ls)
routers (status flags ∷ ls) = routers ls
routers (other ∷ ls) = routers ls

unfoldable pub malformed : List Line → ℕ
malformed [] = 0
malformed (router parts ∷ ls) =
    let rest = malformed ls in if ltb (length parts) 9 then suc rest else rest
malformed (status flags ∷ ls) = malformed ls
malformed (other ∷ ls) = malformed ls

-- The loop on lines already told apart.
unfoldable pub run_lines : List Line → Parser → Parser
run_lines [] p = p
run_lines (l ∷ ls) p = run_lines ls (parse_line l p)

pub parse_lines-run_lines :
    (lines : List (List ℕ)) (p : Parser) → parse_lines lines p ≡ run_lines (map line_of lines) p
unfolding parse_lines run_lines
parse_lines-run_lines [] p = refl
parse_lines-run_lines (line ∷ lines) p = parse_lines-run_lines lines (parse_line (line_of line) p)

pub get_elem-length :
    {A : Type 0} (h : List A) (a : A) → get_elem? (h ++ (a ∷ [])) (length h) ≡ some a
get_elem-length [] a = refl
get_elem-length (x ∷ h) a = get_elem-length h a

pub set-length :
    {A : Type 0} (h : List A) (a b : A) → set (h ++ (a ∷ [])) (length h) b ≡ h ++ (b ∷ [])
set-length [] a b = refl
set-length (x ∷ h) a b = ap (λ t. x ∷ t) (set-length h a b)

get_elem-append :
    {A : Type 0} (h k : List A) (i : ℕ) → i < length h → get_elem? (h ++ k) i ≡ get_elem? h i
get_elem-append [] k i l = absurd (omega arith)
get_elem-append (x ∷ h) k zero l = refl
get_elem-append (x ∷ h) k (suc i) l = get_elem-append h k i (omega arith)

pub replicate-snoc : {A : Type 0} (n : ℕ) (a : A) → replicate n a ++ (a ∷ []) ≡ replicate (suc n) a
replicate-snoc zero a = refl
replicate-snoc (suc n) a = ap (λ t. a ∷ t) (replicate-snoc n a)

abbrev or_skip : Option Relay → List Relay → List Relay
or_skip o rest = elim o [ none ↦ rest | some r ↦ r ∷ rest ]

or_skip-append : (o : Option Relay) (xs ys : List Relay) → or_skip o xs ++ ys ≡ or_skip o (xs ++ ys)
or_skip-append none xs ys = refl
or_skip-append (some r) xs ys = refl

pub deref-append_heap :
    (h k : List Relay) (rs : List ℕ) → All (λ i. i < length h) rs → deref (h ++ k) rs ≡ deref h rs
unfolding deref
deref-append_heap h k [] b = refl
deref-append_heap h k (i ∷ rs) b =
    ap₂ or_skip (get_elem-append h k i b.0) (deref-append_heap h k rs b.1)

pub deref-append : (h : List Relay) (rs qs : List ℕ) → deref h (rs ++ qs) ≡ deref h rs ++ deref h qs
unfolding deref
deref-append h [] qs = refl
deref-append h (i ∷ rs) qs =
    ap (or_skip (get_elem? h i)) (deref-append h rs qs)
    ∙ sym (or_skip-append (get_elem? h i) (deref h rs) (deref h qs))

pub deref-replicate :
    (h : List Relay) (r : Relay) (n : ℕ)
    → deref (h ++ (r ∷ [])) (replicate n (length h)) ≡ replicate n r
unfolding deref
deref-replicate h r zero = refl
deref-replicate h r (suc n) = ap₂ or_skip (get_elem-length h r) (deref-replicate h r n)
