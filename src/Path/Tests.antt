-- ===== src/Path/Tests.antt =====
-- Runs of path selection, and the witnesses.
use go_tor.Prelude.{
  ℕ, zero, suc, ◌+◌, ◌<◌, ◌≡◌, ◌≢◌, refl, ap, true, false, List, [], ◌∷◌, Option, none, some, ok,
  err, length, get_elem?, drop, arith,
}
use go_tor.Directory.{Relay, parse_consensus}
use go_tor.Path.Guards.{GuardState, GuardEntry, get_guards, is_known, has_unconfirmed}
use go_tor.Security.Int.{pos}
use go_tor.Path.{
  Selector, Path3, Choices, new_selector, update_consensus, select_guard, select_path, no_middles,
  no_guards, find_persistent, pick,
}
use go_tor.Path.Apart.{IsPath, select_path_apart}
use go_tor.Path.Found.{UsableIn, select_path_found}
use go_tor.Path.Sticky.{HasRoom, guard_sticks}

abbrev a_relay : ℕ → List (List ℕ) → Relay
a_relay n flags = record {
  nickname = [];
  fingerprint = n ∷ [];
  address = [];
  or_port = pos 9001;
  dir_port = pos 0;
  flags = flags;
  identity_key = [];
  ntor_onion_key = [];
}

abbrev all_flags : List (List ℕ)
all_flags =
    (82 ∷ 117 ∷ 110 ∷ 110 ∷ 105 ∷ 110 ∷ 103 ∷ [])
    ∷ (86 ∷ 97 ∷ 108 ∷ 105 ∷ 100 ∷ [])
    ∷ (71 ∷ 117 ∷ 97 ∷ 114 ∷ 100 ∷ [])
    ∷ (83 ∷ 116 ∷ 97 ∷ 98 ∷ 108 ∷ 101 ∷ [])
    ∷ (69 ∷ 120 ∷ 105 ∷ 116 ∷ [])
    ∷ []

abbrev three : List Relay
three = a_relay 1 all_flags ∷ a_relay 2 all_flags ∷ a_relay 3 all_flags ∷ []

abbrev first : ℕ → Option ℕ
first n = some 0

abbrev firsts : Choices
firsts = record { for_guard = first; for_exit = first; for_middle = first }

abbrev kept_none : GuardState
kept_none = record { guards = []; last_updated = 0 }

abbrev ready : Selector
ready = (update_consensus (ok three) (new_selector (some kept_none))).0

abbrev path_of : Path3
path_of = record {
  guard = a_relay 1 all_flags;
  middle = a_relay 3 all_flags;
  exit = a_relay 2 all_flags;
}

path_run : (select_path firsts 5 443 ready).1 ≡ ok path_of
unfolding select_path update_consensus go_tor.Directory.has_flag go_tor.Directory.has_flag_in
    go_tor.Prelude.bytes_eq new_selector get_guards
path_run = refl

-- Two relays are too few.
short_run :
    (select_path firsts 5 443 (update_consensus (ok (drop 1 three)) (new_selector none)).0).1
    ≡ err no_middles
unfolding select_path update_consensus go_tor.Directory.has_flag go_tor.Directory.has_flag_in
    go_tor.Prelude.bytes_eq new_selector
short_run = refl

select_path_apart_example : IsPath (λ r. length r.fingerprint ≡ 1) path_of
select_path_apart_example =
    select_path_apart (λ r. length r.fingerprint ≡ 1) three (new_selector (some kept_none)) firsts 5
      443 path_of (refl, (refl, (refl, tt))) path_run

abbrev head : List ℕ → ℕ
head [] = 0
head (x ∷ xs) = x

usable_at :
    (i : ℕ) (a : Relay)
    → get_elem? three i ≡ some a
    → go_tor.Directory.is_running a ≡ true
    → go_tor.Directory.is_valid a ≡ true
    → UsableIn three a
usable_at i a h k v = ((i, h), k, v)

select_path_found_example :
    (p : Path3) × ((select_path firsts 5 443
        (update_consensus (ok three) (new_selector (some kept_none))).0).1
      ≡ ok p)
unfolding go_tor.Directory.has_flag go_tor.Directory.has_flag_in go_tor.Prelude.bytes_eq
select_path_found_example =
    select_path_found firsts 5 443 three (new_selector (some kept_none)) (a_relay 1 all_flags)
      (λ n h. (0, refl, h)) (λ n h. (0, refl, h)) (λ n h. (0, refl, h))
      (usable_at 0 (a_relay 1 all_flags) refl refl refl) refl refl
      (record {
        a = a_relay 1 all_flags;
        b = a_relay 2 all_flags;
        c = a_relay 3 all_flags;
        a_in = usable_at 0 (a_relay 1 all_flags) refl refl refl;
        b_in = usable_at 1 (a_relay 2 all_flags) refl refl refl;
        c_in = usable_at 2 (a_relay 3 all_flags) refl refl refl;
        a_b = λ e. (let f : 1 ≡ 2 = ap head e in absurd (omega arith));
        a_c = λ e. (let f : 1 ≡ 3 = ap head e in absurd (omega arith));
        b_c = λ e. (let f : 2 ≡ 3 = ap head e in absurd (omega arith));
      })

abbrev over_three : GuardState → Selector
over_three gm = record { guard_manager = some gm; guards = three; relays = three }

-- The last of the relays is picked, and later again.
abbrev last : ℕ → Option ℕ
last zero = none
last (suc n) = some n

picked_run : (select_guard last 5 (over_three kept_none)).1 ≡ ok (a_relay 3 all_flags)
unfolding select_guard get_guards
picked_run = refl

room_run : HasRoom (a_relay 3 all_flags) kept_none.guards
unfolding is_known
room_run = refl

nothing_kept : find_persistent (get_guards 5 kept_none) three ≡ none
unfolding get_guards find_persistent
nothing_kept = refl

guard_sticks_example :
    (q : Relay) × (select_guard first 99 (select_guard last 5 (over_three kept_none)).0
      ≡ ((select_guard last 5 (over_three kept_none)).0, ok q))
    × (q.fingerprint ≡ 3 ∷ [])
guard_sticks_example =
    guard_sticks last first 5 99 (over_three kept_none) kept_none (a_relay 3 all_flags) refl
      nothing_kept picked_run room_run (omega arith) (omega arith)

abbrev kept_entry : ℕ → GuardEntry
kept_entry n = record {
  fingerprint = n ∷ [];
  nickname = [];
  address = [];
  first_used = 0;
  last_used = 0;
  confirmed = true;
}

abbrev kept_three : GuardState
kept_three = record { guards = kept_entry 7 ∷ kept_entry 8 ∷ kept_entry 9 ∷ []; last_updated = 0 }

all_gone : find_persistent (get_guards 5 kept_three) three ≡ none
unfolding get_guards find_persistent go_tor.Prelude.bytes_eq
all_gone = refl

not_known : is_known (3 ∷ []) kept_three.guards ≡ false
unfolding is_known go_tor.Prelude.bytes_eq
not_known = refl

all_confirmed : has_unconfirmed kept_three.guards ≡ false
unfolding has_unconfirmed
all_confirmed = refl

last_picked : pick last no_guards three ≡ ok (a_relay 3 all_flags)
unfolding pick
last_picked = refl
