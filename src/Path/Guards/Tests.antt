-- ===== src/Path/Guards/Tests.antt =====
-- A run of the guard manager, and the witness.
use go_tor.Prelude.{
  ℕ, ◌+◌, ◌≡◌, ◌≤◌, refl, true, false, List, [], ◌∷◌, length, map, err, All, arith,
}
use go_tor.Security.Int.{pos}
use go_tor.Directory.{Relay}
use go_tor.Path.Guards.{
  GuardEntry, GuardState, add_guard, confirm_guard, get_guards, get_stats, remove_guard,
  guard_not_found, guard_expiry, is_known,
}
use go_tor.Path.Guards.Distinct.{GuardsOk}
use go_tor.Path.Guards.Kept.{
  GuardCall, adds, confirms, saves, calls, is_confirmed, keeps, guards_kept,
}

abbrev a_relay : ℕ → List (List ℕ) → Relay
a_relay n flags = record {
  nickname = [];
  fingerprint = n ∷ [];
  address = [];
  or_port = pos 9001;
  dir_port = pos 0;
  flags = flags;
  identity_key = [];
  ntor_onion_key = [];
}

abbrev start : GuardState
start = record { guards = []; last_updated = 0 }

abbrev four_calls : List GuardCall
four_calls =
    adds 5 (a_relay 1 [])
    ∷ confirms 6 (1 ∷ [])
    ∷ adds 7 (a_relay 2 [])
    ∷ adds 8 (a_relay 3 [])
    ∷ adds 9 (a_relay 4 [])
    ∷ saves 10
    ∷ []

-- The first guard that is not confirmed makes room.
evicts_run :
    map (λ g. g.fingerprint) (calls four_calls start).guards ≡ (1 ∷ []) ∷ (3 ∷ []) ∷ (4 ∷ []) ∷ []
unfolding calls go_tor.Path.Guards.save add_guard confirm_guard go_tor.Prelude.bytes_eq
evicts_run = refl

-- Three months after its last use only the guards that were added later are left.
expired_run :
    map (λ g. g.fingerprint) (get_guards (8 + guard_expiry) (calls four_calls start))
    ≡ (4 ∷ []) ∷ []
unfolding calls get_guards go_tor.Path.Guards.save add_guard confirm_guard go_tor.Prelude.bytes_eq
expired_run = refl

unknown_run : (remove_guard (7 ∷ []) start).1 ≡ err guard_not_found
unfolding remove_guard
unknown_run = refl

four_ok : GuardsOk (calls four_calls start).guards
four_ok = (guards_kept four_calls start (omega arith, tt)).0

guards_kept_example :
    GuardsOk (calls four_calls (calls four_calls start)).guards
    × ((a : List ℕ)
        → All (λ c. keeps c ≡ true) four_calls
        → is_confirmed a (calls four_calls start).guards ≡ true
        → is_confirmed a (calls four_calls (calls four_calls start)).guards ≡ true)
guards_kept_example = guards_kept four_calls (calls four_calls start) four_ok
