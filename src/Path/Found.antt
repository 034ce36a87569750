-- ===== src/Path/Found.antt =====
-- When selecting a path succeeds.
use go_tor.Prelude.{
  true, not, ◌||◌, ◌&&◌, ℕ, zero, suc, ◌≡◌, refl, sym, subst, ap, ◌∙◌, inl, inr, false, List, [],
  ◌∷◌, Option, none, some, Result, ok, err, Bool-cases, get_elem?,
}
use go_tor.Directory.{Relay, is_running, is_valid, is_guard, is_stable}
use go_tor.Path.{
  usable, stable_guards, update_consensus, Selector, Path3, PathError, or_pick, select_guard,
  others, exits, select_exit, select_middle, Choices, is_none_left, rest_of_path, select_path,
  no_guards, no_exits, no_middles,
}
use go_tor.Path.Apart.{select_guard-relays}
use go_tor.Path.Three.{
  InRange, IsIn, Succeeds, pick_in, pick-or_any, HasThree, ThreeOf, one_but, one_but_two,
}

or_pick_found :
    (random : ℕ → Option ℕ) (now : ℕ) (o : Option Relay) (s : Selector) (r : Relay)
    → InRange random
    → IsIn r s.guards
    → Succeeds (or_pick random now o s).1
or_pick_found random now (some q) s r h m = (q, refl)
or_pick_found random now none s r h m =
    let (q, e) = pick_in random no_guards s.guards r h m in (q, rw e refl)

rest_of_path_found :
    (c : Choices) (port : ℕ) (s : Selector) (m : Result PathError Relay)
    → InRange c.for_exit
    → InRange c.for_middle
    → ThreeOf s.relays
    → Succeeds m
    → Succeeds (rest_of_path c port (s, m)).1
unfolding select_exit select_middle
rest_of_path_found c port s (err e) h k t (g, f) = absurd (cc)
rest_of_path_found c port s (ok g) h k t _ =
    let (r, i) = one_but s.relays g.fingerprint t in
    let (x, e) =
      pick-or_any c.for_exit no_exits (exits g.fingerprint s.relays) (others g.fingerprint s.relays)
        r h i in
    let (q, j) = one_but_two s.relays g.fingerprint x.fingerprint t in
    let (y, f) = pick_in c.for_middle no_middles _ q k j in
    (record { guard = g; middle = y; exit = x }, rw (e, f) refl)

select_guard_found :
    (random : ℕ → Option ℕ) (now : ℕ) (s : Selector) (r : Relay)
    → InRange random
    → IsIn r s.guards
    → Succeeds (select_guard random now s).1
unfolding select_guard
select_guard_found random now s r h m = or_pick_found random now _ s r h m

in_nonempty : (rs : List Relay) (a : Relay) → IsIn a rs → is_none_left rs ≡ false
in_nonempty [] a m = absurd (let f = m.1 in cc)
in_nonempty (r ∷ rs) a m = refl

selector_found :
    (c : Choices) (now port : ℕ) (s : Selector) (g : Relay)
    → InRange c.for_guard
    → InRange c.for_exit
    → InRange c.for_middle
    → IsIn g s.guards
    → ThreeOf s.relays
    → (p : Path3) × ((select_path c now port s).1 ≡ ok p)
unfolding select_path
selector_found c now port s g h k l m t =
    let e : is_none_left s.guards ≡ false = in_nonempty s.guards g m in
    let f : is_none_left s.relays ≡ false = in_nonempty s.relays t.a t.a_in in
    let same : select_path c now port s ≡ rest_of_path c port (select_guard c.for_guard now s) =
      rw (e, f) refl in
    let found =
      rest_of_path_found c port (select_guard c.for_guard now s).0
        (select_guard c.for_guard now s).1 k l
        (subst ThreeOf (sym (select_guard-relays c.for_guard now s)) t)
        (select_guard_found c.for_guard now s g h m) in
    (found.0, ap (λ x. x.1) same ∙ found.1)

-- A relay of the consensus with the flags Running and Valid.
abbrev pub UsableIn : List Relay → Relay → Type 0
UsableIn rs a = IsIn a rs × (is_running a ≡ true) × (is_valid a ≡ true)

usable-IsIn :
    (rs : List Relay) (a : Relay) (i : ℕ)
    → get_elem? rs i ≡ some a
    → is_running a ≡ true
    → is_valid a ≡ true
    → IsIn a (usable rs)
unfolding usable
usable-IsIn [] a i h k v = absurd (cc)
usable-IsIn (r ∷ rs) a zero h k v =
    let f : a ≡ r = ap (λ o. elim o [ none ↦ a | some x ↦ x ]) (sym h) in
    let x = subst (λ q. is_running q ≡ true) f k in
    let y = subst (λ q. is_valid q ≡ true) f v in rw (x, y) (0, h)
usable-IsIn (r ∷ rs) a (suc i) h k v = elim (Bool-cases (not (is_running r) || not (is_valid r))) [
  | inl e ↦ rw e (usable-IsIn rs a i h k v)
  | inr e ↦ let m = usable-IsIn rs a i h k v in rw e (suc m.0, m.1)
]

stable_guards-IsIn :
    (rs : List Relay) (a : Relay) (i : ℕ)
    → get_elem? rs i ≡ some a
    → is_guard a ≡ true
    → is_stable a ≡ true
    → IsIn a (stable_guards rs)
unfolding stable_guards
stable_guards-IsIn [] a i h k v = absurd (cc)
stable_guards-IsIn (r ∷ rs) a zero h k v =
    let f : a ≡ r = ap (λ o. elim o [ none ↦ a | some x ↦ x ]) (sym h) in
    let x = subst (λ q. is_guard q ≡ true) f k in
    let y = subst (λ q. is_stable q ≡ true) f v in rw (x, y) (0, h)
stable_guards-IsIn (r ∷ rs) a (suc i) h k v = elim (Bool-cases (is_guard r && is_stable r)) [
  | inl e ↦ let m = stable_guards-IsIn rs a i h k v in rw e (suc m.0, m.1)
  | inr e ↦ rw e (stable_guards-IsIn rs a i h k v)
]

used : (rs : List Relay) (a : Relay) → UsableIn rs a → IsIn a (usable rs)
used rs a ((i, h), k, v) = usable-IsIn rs a i h k v

-- After a consensus in which three relays of different fingerprints are running and valid, and one
-- relay is running, valid, a guard and stable, selecting a path succeeds if the source of randomness
-- works, whatever the persistent guards are.
pub select_path_found :
    (c : Choices) (now port : ℕ) (rs : List Relay) (s : Selector) (g : Relay)
    → InRange c.for_guard
    → InRange c.for_exit
    → InRange c.for_middle
    → UsableIn rs g
    → is_guard g ≡ true
    → is_stable g ≡ true
    → HasThree (UsableIn rs)
    → (p : Path3) × ((select_path c now port (update_consensus (ok rs) s).0).1 ≡ ok p)
unfolding update_consensus
select_path_found c now port rs s g h k l u a b t =
    let (i, e) = used rs g u in
    selector_found c now port (record s { guards = stable_guards (usable rs); relays = usable rs })
      g h k l (stable_guards-IsIn (usable rs) g i e a b)
      (record {
        a = t.a;
        b = t.b;
        c = t.c;
        a_in = used rs t.a t.a_in;
        b_in = used rs t.b t.b_in;
        c_in = used rs t.c t.c_in;
        a_b = t.a_b;
        a_c = t.a_c;
        b_c = t.b_c;
      })
