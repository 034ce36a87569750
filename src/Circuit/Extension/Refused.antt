-- ===== src/Circuit/Extension/Refused.antt =====
-- The cells on which a handshake is not completed.
use go_tor.Prelude.{
  ℕ, ◌≤◌, ◌≡◌, ◌≢◌, ◌↔◌, refl, sym, subst, Bool, true, false, List, Option, none, some, ltb, ◌==◌,
  if◌then◌else◌, length, AreBytes, arith,
}
use go_tor.Cell.Codec.{Cell, uint16_of}
use go_tor.Cell.Codec.Typed.{uint16_of-lt}
use go_tor.Cell.Relay.{slice}
use go_tor.Circuit.Extension.{
  Extension, ExtensionError, cmd_created2, Outcome, too_short, incomplete, unexpected_cell,
  ntor_failed, no_ephemeral_key, insufficient_material, done, panicked, failed, response_end,
  with_material, with_response, process_payload, process_created2,
}

-- A property of both branches of a test.
if_either : {A : Type 0} (P : A → Type 0) (b : Bool) (x y : A) → P x → P y → P (if b then x else y)
if_either P true x y h k = h
if_either P false x y h k = k

-- Of four branches, only the third panics.
third_of_four :
    (a b c : Bool) (x y z w : Extension × Outcome)
    → x.1 ≢ panicked
    → y.1 ≢ panicked
    → w.1 ≢ panicked
    → (if a then x else if b then y else if c then z else w).1 ≡ panicked
    → (a ≡ false) × (b ≡ false) × (c ≡ true)
third_of_four true b c x y z w h k l e = absurd (h e)
third_of_four false true c x y z w h k l e = absurd (k e)
third_of_four false false true x y z w h k l e = (refl, refl, refl)
third_of_four false false false x y z w h k l e = absurd (l e)

failed_safe : (f : ExtensionError) → failed f ≢ panicked
failed_safe f h = cc

done_safe : done ≢ panicked
done_safe h = cc

module _ (ntor : List ℕ → List ℕ → List ℕ → List ℕ → Option (List ℕ)) where
  with_material_safe : (m : Option (List ℕ)) (e : Extension) → (with_material ntor m e).1 ≢ panicked
  with_material_safe none e = failed_safe ntor_failed
  with_material_safe (some m) e =
      if_either (λ (r : Extension × Outcome). r.1 ≢ panicked) (ltb (length m) 72) _ _
        (failed_safe insufficient_material) done_safe

  with_response_safe :
      (response : List ℕ) (o : Option (List ℕ)) (e : Extension)
      → (with_response ntor response o e).1 ≢ panicked
  with_response_safe response none e = failed_safe no_ephemeral_key
  with_response_safe response (some private) e =
      with_material_safe (ntor response private e.server_ntor_key e.server_identity) e

  -- A CREATED2 cell of a peer panics the client exactly where its payload has two bytes or more and
  -- they announce 65534 or 65535 bytes of response. The payload is bytes.
  pub process_created2_panics :
      (c : Cell) (e : Extension)
      → c.command ≡ cmd_created2
      → AreBytes c.payload
      → ((process_created2 ntor c e).1 ≡ panicked)
        ↔ ((2 ≤ length c.payload) × (65534 ≤ uint16_of c.payload))
  unfolding process_created2 process_payload
  process_created2_panics c e k h =
      let l = uint16_of-lt c.payload h in
      let t : (c.command == cmd_created2) ≡ true = ground arith in
      rw t (
        λ p.
            (let (x, y, z) =
                third_of_four (ltb (length c.payload) 2)
                  (ltb (length c.payload) (response_end c.payload)) (ltb (response_end c.payload) 2)
                  _ _ _ _ (failed_safe too_short) (failed_safe incomplete)
                  (with_response_safe (slice c.payload 2 (response_end c.payload))
                    e.ephemeral_private e)
                  p in
              (ground arith, ground arith)),
        λ q.
            (let x : ltb (length c.payload) 2 ≡ false = ground arith in
              let y : ltb (length c.payload) (response_end c.payload) ≡ false = ground arith in
              let z : ltb (response_end c.payload) 2 ≡ true = ground arith in rw (x, y, z) refl),
      )

abbrev NotDone : Extension × Outcome → Type 0
NotDone r = r.1 ≢ done

failed_not_done : (f : ExtensionError) → failed f ≢ done
failed_not_done f h = cc

panicked_not_done : panicked ≢ done
panicked_not_done h = cc

-- A call that ends well has used up the key.
abbrev UsesUp : Extension × Outcome → Type 0
UsesUp r = r.1 ≡ done → r.0.ephemeral_private ≡ none

failed_uses : (e : Extension) (f : ExtensionError) → UsesUp (e, failed f)
failed_uses e f = λ h. absurd (cc)

panicked_uses : (e : Extension) → UsesUp (e, panicked)
panicked_uses e = λ h. absurd (cc)

module _ (ntor : List ℕ → List ℕ → List ℕ → List ℕ → Option (List ℕ)) where
  with_material_uses : (m : Option (List ℕ)) (e : Extension) → UsesUp (with_material ntor m e)
  with_material_uses none e = failed_uses e ntor_failed
  with_material_uses (some m) e =
      if_either UsesUp (ltb (length m) 72) _ _ (failed_uses e insufficient_material) (λ h. refl)

  with_response_uses :
      (response : List ℕ) (o : Option (List ℕ)) (e : Extension)
      → UsesUp (with_response ntor response o e)
  with_response_uses response none e = failed_uses e no_ephemeral_key
  with_response_uses response (some private) e =
      with_material_uses (ntor response private e.server_ntor_key e.server_identity) e

  process_created2_uses : (c : Cell) (e : Extension) → UsesUp (process_created2 ntor c e)
  unfolding process_created2 process_payload
  process_created2_uses c e =
      if_either UsesUp (c.command == cmd_created2) _ _
        (if_either UsesUp (ltb (length c.payload) 2) _ _ (failed_uses e too_short) (
          if_either UsesUp (ltb (length c.payload) (response_end c.payload)) _ _
            (failed_uses e incomplete)
            (if_either UsesUp (ltb (response_end c.payload) 2) _ _ (panicked_uses e) (
              with_response_uses (slice c.payload 2 (response_end c.payload)) e.ephemeral_private
                e))))
        (failed_uses e unexpected_cell)

  -- Without a key no cell is accepted.
  no_key_no_done :
      (c : Cell) (e : Extension) → e.ephemeral_private ≡ none → (process_created2 ntor c e).1 ≢ done
  unfolding process_created2 process_payload
  no_key_no_done c e k =
      let refuses : (with_response ntor (slice c.payload 2 (response_end c.payload))
            e.ephemeral_private e).1
          ≢ done =
        subst (λ o. (with_response ntor (slice c.payload 2 (response_end c.payload)) o e).1 ≢ done)
          (sym k) (failed_not_done no_ephemeral_key) in
      if_either NotDone (c.command == cmd_created2) _ _
        (if_either NotDone (ltb (length c.payload) 2) _ _ (failed_not_done too_short) (
          if_either NotDone (ltb (length c.payload) (response_end c.payload)) _ _
            (failed_not_done incomplete)
            (if_either NotDone (ltb (response_end c.payload) 2) _ _ panicked_not_done refuses)))
        (failed_not_done unexpected_cell)

  -- A handshake is completed once: after a CREATED2 cell that is accepted, every further one is
  -- refused until a new handshake is started.
  pub created2_accepted_once :
      (c d : Cell) (e : Extension)
      → (process_created2 ntor c e).1 ≡ done
      → (process_created2 ntor d (process_created2 ntor c e).0).1 ≢ done
  created2_accepted_once c d e h =
      no_key_no_done d (process_created2 ntor c e).0 (process_created2_uses c e h)
