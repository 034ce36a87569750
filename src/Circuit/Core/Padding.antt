-- ===== src/Circuit/Core/Padding.antt =====
-- When a circuit wants a padding cell.
use go_tor.Prelude.{
  ℕ, ◌+◌, ◌-◌, ◌≤◌, ◌<◌, ◌≡◌, Bool, true, false, not, ◌||◌, ltb, ◌==◌, if◌then◌else◌, arith, ◌↔◌,
  ◌⊎◌,
}
use go_tor.Circuit.Core.{
  Circuit, is_open, should_send_padding, record_padding_sent, record_activity,
}

-- The policy as its comment lists it.
abbrev pub PaddingDue : (ℕ → ℕ) → ℕ → Circuit → Type 0
PaddingDue four_fifths now c =
    (c.padding_enabled ≡ true)
    × (is_open c.state ≡ true)
    × (0 < c.padding_interval)
    × (c.padding_interval ≤ now - c.last_padding_time)
    × (four_fifths c.padding_interval ≤ now - c.last_activity_time)

padding_tests :
    (enabled opened : Bool) (interval since_padding threshold since_activity : ℕ)
    → ((if not enabled || not opened
          then false
          else if interval == 0
          then false
          else if ltb since_padding interval
          then false
          else not (ltb since_activity threshold))
        ≡ true)
      ↔ ((enabled ≡ true)
          × (opened ≡ true)
          × (0 < interval)
          × (interval ≤ since_padding)
          × (threshold ≤ since_activity))
padding_tests enabled opened i p t a = ground arith

-- A padding cell is due exactly when padding is enabled, the circuit is open, the interval is not
-- zero and has passed since the last padding cell, and the threshold (four fifths of the interval)
-- has passed since the last activity.
pub should_send_padding_iff :
    (four_fifths : ℕ → ℕ) (now : ℕ) (c : Circuit)
    → (should_send_padding four_fifths now c ≡ true) ↔ PaddingDue four_fifths now c
unfolding should_send_padding
should_send_padding_iff four_fifths now c =
    padding_tests c.padding_enabled (is_open c.state) c.padding_interval (now - c.last_padding_time)
      (four_fifths c.padding_interval) (now - c.last_activity_time)

-- When a padding cell is due after one was recorded at `sent` and an activity at `active`, the whole
-- interval has passed since `sent` and the threshold since `active`.
pub padding_spaced :
    (four_fifths : ℕ → ℕ) (sent active now : ℕ) (c : Circuit)
    → should_send_padding four_fifths now (record_activity active (record_padding_sent sent c))
      ≡ true
    → (sent + c.padding_interval ≤ now)
      × ((four_fifths c.padding_interval ≡ 0) ⊎ (active + four_fifths c.padding_interval ≤ now))
unfolding record_activity record_padding_sent
padding_spaced f sent active now c h =
    let r = record_activity active (record_padding_sent sent c) in
    let due = (should_send_padding_iff f now r).0 h in
    let positive : 0 < c.padding_interval = due.2 in
    let passed : c.padding_interval ≤ now - sent = due.3 in
    let quiet : f c.padding_interval ≤ now - active = due.4 in (omega arith, ground arith)
