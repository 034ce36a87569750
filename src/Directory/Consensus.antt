-- ===== src/Directory/Consensus.antt =====
-- What reading a consensus yields, without the pointers of the parser.
use go_tor.Prelude.{
  ℕ, suc, ◌+◌, ◌*◌, ◌/◌, ◌≤◌, ◌<◌, ◌≡◌, refl, sym, subst, ap, ap₂, ◌∙◌, inl, inr, Bool, true, false,
  List, [], ◌∷◌, ◌++◌, map, append-nil, append_assoc, none, some, ok, err, ltb, if◌then◌else◌,
  Bool-cases, length, length-append, replicate, All, All-append, All-replicate, arith,
}
use go_tor.Directory.{
  Relay, Line, router, status, other, line_of, Parser, new_parser, relay_of, append_current,
  router_line, status_line, open_entry, parse_line, read_error, excessive_malformed, deref, finish,
  parse_consensus, has_valid_keys, part, port_error,
}
use go_tor.Directory.Entries.{
  entries_of, entries, routers, malformed, run_lines, parse_lines-run_lines, get_elem-length,
  set-length, replicate-snoc, deref-append_heap, deref-append, deref-replicate,
}

-- The parser inside the entry of `r`, which it has appended `n` times.
at : List Relay → Relay → List ℕ → ℕ → ℕ → ℕ → ℕ → Parser
at h r rs n t m e = record {
  heap = h ++ (r ∷ []);
  relays = rs ++ replicate n (length h);
  current_relay = some (length h);
  total_entries = t;
  malformed_entries = m;
  port_parse_errors = e;
}

-- A parser that has read its lines: the entries and the malformed ones it has counted in them, on
-- top of `t` and `m`, and the relays it yields.
abbrev HasRead : ℕ → ℕ → List Line → List Relay → Parser → Type 0
HasRead t m ls out q =
    (q.total_entries ≡ t + routers ls)
    × (q.malformed_entries ≡ m + malformed ls)
    × (deref q.heap (append_current q.current_relay q.relays) ≡ out)

-- One more reference to the current relay.
append_one_more :
    (rs : List ℕ) (n i : ℕ) → (rs ++ replicate n i) ++ (i ∷ []) ≡ rs ++ replicate (suc n) i
append_one_more rs n i = append_assoc rs _ _ ∙ ap (λ t. rs ++ t) (replicate-snoc n i)

router_line_malformed :
    (parts : List (List ℕ)) (h : List Relay) (r : Relay) (rs : List ℕ) (n t m e : ℕ)
    → ltb (length parts) 9 ≡ true
    → router_line parts (at h r rs n t m e) ≡ at h r rs (suc n) (t + 1) (m + 1) e
unfolding router_line at
router_line_malformed parts h r rs n t m e b = rw (b, append_one_more rs n (length h)) refl

router_line_entry :
    (parts : List (List ℕ)) (h : List Relay) (r : Relay) (rs : List ℕ) (n t m e : ℕ)
    → ltb (length parts) 9 ≡ false
    → router_line parts (at h r rs n t m e)
      ≡ at
          (h ++ (r ∷ []))
          (relay_of parts)
          (rs ++ replicate (suc n) (length h))
          0
          (t + 1)
          m
          (e + port_error (part parts 7) + port_error (part parts 8))
unfolding router_line open_entry at
router_line_entry parts h r rs n t m e b =
    rw (b, append_one_more rs n (length h), append-nil (rs ++ replicate (suc n) (length h))) refl

status_line-at :
    (flags : List (List ℕ)) (h : List Relay) (r : Relay) (rs : List ℕ) (n t m e : ℕ)
    → status_line flags (some (length h)) (at h r rs n t m e)
      ≡ at h (record r { flags = flags }) rs n t m e
unfolding status_line at
status_line-at flags h r rs n t m e =
    rw (get_elem-length h r, set-length h r (record r { flags = flags })) refl

-- References to the relays before the current one, then those to it.
deref-at :
    (h : List Relay) (r : Relay) (rs : List ℕ) (n : ℕ)
    → All (λ i. i < length h) rs
    → deref (h ++ (r ∷ [])) (rs ++ replicate n (length h)) ≡ deref h rs ++ replicate n r
deref-at h r rs n b =
    deref-append (h ++ (r ∷ [])) rs (replicate n (length h))
    ∙ ap₂ (λ x y. x ++ y) (deref-append_heap h (r ∷ []) rs b) (deref-replicate h r n)

refs_below : (a b : ℕ) (rs : List ℕ) → a ≤ b → All (λ i. i < a) rs → All (λ i. i < b) rs
refs_below a b [] l h = tt
refs_below a b (i ∷ rs) l h = (omega (arith, h.0), refs_below a b rs l h.1)

earlier_refs :
    (h : List Relay) (r : Relay) (rs : List ℕ) (n : ℕ)
    → All (λ i. i < length h) rs
    → All (λ i. i < length (h ++ (r ∷ []))) (rs ++ replicate n (length h))
earlier_refs h r rs n b =
    let e : length (h ++ (r ∷ [])) ≡ suc (length h) = omega (arith, length-append h (r ∷ [])) in
    All-append _ rs _ (refs_below (length h) _ rs (omega (arith, e)) b)
      (All-replicate _ n (length h) (omega (arith, e)))

run_lines-at :
    (ls : List Line) (h : List Relay) (r : Relay) (rs : List ℕ) (n t m e : ℕ)
    → All (λ i. i < length h) rs
    → HasRead t m ls (deref h rs ++ entries_of r n ls) (run_lines ls (at h r rs n t m e))
unfolding run_lines parse_line entries_of routers malformed at
run_lines-at [] h r rs n t m e b = (
  omega arith,
  omega arith,
  ap (deref (h ++ (r ∷ []))) (append_one_more rs n (length h)) ∙ deref-at h r rs (suc n) b,
)
run_lines-at (router parts ∷ ls) h r rs n t m e b = elim (Bool-cases (ltb (length parts) 9)) [
  | inl c ↦
      let ih = run_lines-at ls h r rs (suc n) (t + 1) (m + 1) e b in
      subst
        (λ p.
          HasRead t m (router parts ∷ ls) (deref h rs ++ entries_of r n (router parts ∷ ls))
            (run_lines ls p))
        (sym (router_line_malformed parts h r rs n t m e c))
        (rw c (omega (arith, ih.0), omega (arith, ih.1), ih.2))
  | inr c ↦
      let ih =
        run_lines-at ls (h ++ (r ∷ [])) (relay_of parts) (rs ++ replicate (suc n) (length h)) 0
          (t + 1) m (e + port_error (part parts 7) + port_error (part parts 8))
          (earlier_refs h r rs (suc n) b) in
      subst
        (λ p.
          HasRead t m (router parts ∷ ls) (deref h rs ++ entries_of r n (router parts ∷ ls))
            (run_lines ls p))
        (sym (router_line_entry parts h r rs n t m e c))
        (rw c (
          omega (arith, ih.0),
          omega (arith, ih.1),
          ih.2
              ∙ ap (λ x. x ++ entries_of (relay_of parts) 0 ls) (deref-at h r rs (suc n) b)
              ∙ append_assoc (deref h rs) _ _,
        ))
]
run_lines-at (status flags ∷ ls) h r rs n t m e b =
    subst
      (λ p.
        HasRead t m ls (deref h rs ++ entries_of (record r { flags = flags }) n ls)
          (run_lines ls p))
      (sym (status_line-at flags h r rs n t m e))
      (run_lines-at ls h (record r { flags = flags }) rs n t m e b)
run_lines-at (other ∷ ls) h r rs n t m e b = run_lines-at ls h r rs n t m e b

-- Before the first well-formed entry.
outside : ℕ → ℕ → ℕ → Parser
outside t m e = record {
  heap = [];
  relays = [];
  current_relay = none;
  total_entries = t;
  malformed_entries = m;
  port_parse_errors = e;
}

router_line-outside :
    (parts : List (List ℕ)) (t m e : ℕ)
    → ltb (length parts) 9 ≡ true
    → router_line parts (outside t m e) ≡ outside (t + 1) (m + 1) e
unfolding router_line outside
router_line-outside parts t m e b = rw b refl

router_line_first :
    (parts : List (List ℕ)) (t m e : ℕ)
    → ltb (length parts) 9 ≡ false
    → router_line parts (outside t m e)
      ≡ at []
          (relay_of parts)
          []
          0
          (t + 1)
          m
          (e + port_error (part parts 7) + port_error (part parts 8))
unfolding router_line open_entry outside at
router_line_first parts t m e b = rw b refl

run_lines-outside :
    (ls : List Line) (t m e : ℕ) → HasRead t m ls (entries ls) (run_lines ls (outside t m e))
unfolding run_lines parse_line status_line entries routers malformed outside deref
run_lines-outside [] t m e = (omega arith, omega arith, refl)
run_lines-outside (router parts ∷ ls) t m e = elim (Bool-cases (ltb (length parts) 9)) [
  | inl c ↦
      let ih = run_lines-outside ls (t + 1) (m + 1) e in
      subst (λ p. HasRead t m (router parts ∷ ls) (entries (router parts ∷ ls)) (run_lines ls p))
        (sym (router_line-outside parts t m e c))
        (rw c (omega (arith, ih.0), omega (arith, ih.1), ih.2))
  | inr c ↦
      let ih =
        run_lines-at ls [] (relay_of parts) [] 0 (t + 1) m
          (e + port_error (part parts 7) + port_error (part parts 8)) tt in
      subst (λ p. HasRead t m (router parts ∷ ls) (entries (router parts ∷ ls)) (run_lines ls p))
        (sym (router_line_first parts t m e c))
        (rw c (omega (arith, ih.0), omega (arith, ih.1), ih.2))
]
run_lines-outside (status flags ∷ ls) t m e = run_lines-outside ls t m e
run_lines-outside (other ∷ ls) t m e = run_lines-outside ls t m e

malformed-le_routers : (ls : List Line) → malformed ls ≤ routers ls
unfolding malformed routers
malformed-le_routers [] = omega arith
malformed-le_routers (router parts ∷ ls) = ground (arith, malformed-le_routers ls)
malformed-le_routers (status flags ∷ ls) = malformed-le_routers ls
malformed-le_routers (other ∷ ls) = malformed-le_routers ls

-- The thresholds, whichever order they are compared in.
finish_cases :
    (p : Parser) (failed : Bool) (t m : ℕ) (out : List Relay)
    → m ≤ t
    → p.total_entries ≡ t
    → p.malformed_entries ≡ m
    → deref p.heap (append_current p.current_relay p.relays) ≡ out
    → finish failed p ≡ (
        if failed
        then err read_error
        else if ltb (t * 10 / 100) m
        then err excessive_malformed
        else ok out)
unfolding finish
finish_cases p true t m out l a b c = refl
finish_cases p false t m out l a b c = elim (Bool-cases (ltb (t * 10 / 100) m)) [
  | inl e ↦ let f : ltb 0 t ≡ true = ground arith in rw (a, b, e, f) refl
  | inr e ↦ elim (Bool-cases (ltb 0 t)) [
    | inl f ↦ rw (a, b, e, f, c) refl
    | inr f ↦ rw (a, b, e, f, c) refl
  ]
]

-- Reading a consensus fails on a read error, then where more than a tenth of the router entries have
-- fewer than nine fields. Otherwise it yields the relays of the well-formed entries in order: each
-- with the flags of the last status line before the next well-formed entry, and repeated once for
-- each malformed entry in between.
pub parse_consensus_exact :
    (lines : List (List ℕ)) (failed : Bool)
    → let ls = map line_of lines in
      parse_consensus lines failed ≡ (
        if failed
        then err read_error
        else if ltb (routers ls * 10 / 100) (malformed ls)
        then err excessive_malformed
        else ok (entries ls))
unfolding parse_consensus new_parser outside
parse_consensus_exact lines failed =
    let ls = map line_of lines in
    let h = run_lines-outside ls 0 0 0 in
    rw (parse_lines-run_lines lines new_parser) (
      finish_cases (run_lines ls new_parser) failed (routers ls) (malformed ls) (entries ls)
        (malformed-le_routers ls) (omega (arith, h.0)) (omega (arith, h.1)) h.2)

entries_of-keys :
    (r : Relay) (n : ℕ) (ls : List Line)
    → has_valid_keys r ≡ false
    → All (λ q. has_valid_keys q ≡ false) (entries_of r n ls)
unfolding entries_of has_valid_keys relay_of
entries_of-keys r n [] h = All-replicate _ (suc n) r h
entries_of-keys r n (router parts ∷ ls) h = elim (Bool-cases (ltb (length parts) 9)) [
  | inl c ↦ rw c (entries_of-keys r (suc n) ls h)
  | inr c ↦ rw c (
      All-append _ (replicate (suc n) r) _ (All-replicate _ (suc n) r h)
        (entries_of-keys (relay_of parts) 0 ls refl))
]
entries_of-keys r n (status flags ∷ ls) h = entries_of-keys (record r { flags = flags }) n ls h
entries_of-keys r n (other ∷ ls) h = entries_of-keys r n ls h

-- No relay read from a consensus has the keys that a handshake needs.
pub entries-keys : (ls : List Line) → All (λ q. has_valid_keys q ≡ false) (entries ls)
unfolding entries has_valid_keys relay_of
entries-keys [] = tt
entries-keys (router parts ∷ ls) = elim (Bool-cases (ltb (length parts) 9)) [
  | inl c ↦ rw c (entries-keys ls)
  | inr c ↦ rw c (entries_of-keys (relay_of parts) 0 ls refl)
]
entries-keys (status flags ∷ ls) = entries-keys ls
entries-keys (other ∷ ls) = entries-keys ls
