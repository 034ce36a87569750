-- ===== src/Circuit/Crypto/Recognize.antt =====
-- Which hop recognizes an incoming relay cell, and what a cell that the sending side stamped looks
-- like to the receiving side.
use go_tor.Prelude.{
  ℕ, suc, ◌+◌, ◌≤◌, ◌<◌, ◌≡◌, ◌≢◌, refl, sym, ap, ◌∙◌, true, false, List, [], ◌∷◌, ◌++◌, ◌&&◌, ◌==◌,
  Option, none, some, ok, err, ltb, ltb→lt, subst, ◌⊎◌, inl, inr, length, take, drop, set,
  get_elem?, All, arith, Bool-cases, bytes_eq, bytes_eq→eq, take-append_exact, drop-append_exact,
  length-take, Option-cases, Bool, ap₂, bytes_eq_refl,
}
use go_tor.Cell.Codec.{uint16_of}
use go_tor.Cell.Relay.{slice}
use go_tor.Circuit.Crypto.{
  Hop, direction_backward, update_hop, write_digest, zero_digest, digest_prefix, recognizes,
  try_hops, verify_relay_cell_digest, data_too_short, stamp_hop,
}

both : (a b : Bool) → (a && b) ≡ true → (a ≡ true) × (b ≡ true)
both true b h = (refl, h)
both false b h = absurd (cc)

module _ (sha1 : List ℕ → List ℕ) where
  -- What the search for a hop found: no hop and nothing changed, or the first hop that recognizes the
  -- cell, with only that hop's backward digest taken further.
  abbrev Search : List ℕ → ℕ → List Hop → List Hop × Option ℕ → Type 0
  Search payload idx hops r =
      ((r.1 ≡ none) × (r.0 ≡ hops) × All (λ h. recognizes sha1 payload h ≡ false) hops)
      ⊎ ((i : ℕ) × (h : Hop) × (r.1 ≡ some (idx + i))
          × (get_elem? hops i ≡ some h)
          × (recognizes sha1 payload h ≡ true)
          × All (λ g. recognizes sha1 payload g ≡ false) (take i hops)
          × (r.0 ≡ set hops i (update_hop direction_backward (zero_digest payload) h)))

  try_hops_hit :
      (payload : List ℕ) (idx : ℕ) (h : Hop) (hs : List Hop)
      → recognizes sha1 payload h ≡ true
      → (try_hops sha1 payload idx (h ∷ hs)
          ≡ (update_hop direction_backward (zero_digest payload) h ∷ hs, some idx))
  unfolding try_hops
  try_hops_hit payload idx h hs e = rw e refl

  try_hops_miss :
      (payload : List ℕ) (idx : ℕ) (h : Hop) (hs : List Hop)
      → recognizes sha1 payload h ≡ false
      → (try_hops sha1 payload idx (h ∷ hs)
          ≡ (h ∷ (try_hops sha1 payload (idx + 1) hs).0, (try_hops sha1 payload (idx + 1) hs).1))
  unfolding try_hops
  try_hops_miss payload idx h hs e = rw e refl

  Search-later :
      (payload : List ℕ) (idx : ℕ) (h : Hop) (hs : List Hop) (r : List Hop × Option ℕ)
      → recognizes sha1 payload h ≡ false
      → Search payload (idx + 1) hs r
      → Search payload idx (h ∷ hs) (h ∷ r.0, r.1)
  Search-later payload idx h hs r e (inl (a, b, c)) = inl (a, ap (λ t. h ∷ t) b, (e, c))
  Search-later payload idx h hs r e (inr (i, g, a, b, c, d, f)) =
      inr (suc i, g, a ∙ ap some (omega arith), b, c, (e, d), ap (λ t. h ∷ t) f)

  try_hops-Search :
      (payload : List ℕ) (idx : ℕ) (hops : List Hop)
      → Search payload idx hops (try_hops sha1 payload idx hops)
  unfolding try_hops
  try_hops-Search payload idx [] = inl (refl, refl, tt)
  try_hops-Search payload idx (h ∷ hs) = elim (Bool-cases (recognizes sha1 payload h)) [
    | inl e ↦
        subst (Search payload idx (h ∷ hs)) (sym (try_hops_hit payload idx h hs e))
          (inr (0, h, ap some (omega arith), refl, e, tt, refl))
    | inr e ↦ subst (Search payload idx (h ∷ hs)) (sym (try_hops_miss payload idx h hs e)) (
        Search-later payload idx h hs (try_hops sha1 payload (idx + 1) hs) e
          (try_hops-Search payload (idx + 1) hs))
  ]

  recognizes-some :
      (payload d : List ℕ) (receiver : Hop)
      → receiver.backward_digest ≡ some d
      → (recognizes sha1 payload receiver ≡ (
          bytes_eq (digest_prefix sha1 d) (slice payload 5 9)
          && uint16_of (slice payload 1 3) == 0))
  unfolding recognizes
  recognizes-some payload d receiver e = rw e refl

  recognizes-none :
      (payload : List ℕ) (h : Hop) → h.backward_digest ≡ none → recognizes sha1 payload h ≡ false
  unfolding recognizes
  recognizes-none payload h e = rw e refl

  -- The digest field is the start of the sum of what a hop has digested, and the recognized field is
  -- zero.
  abbrev pub Carries : List ℕ → List ℕ → Type 0
  Carries payload d =
      (take 4 (sha1 d) ≡ take 4 (drop 5 payload)) × (take 2 (drop 1 payload) ≡ 0 ∷ 0 ∷ [])

  -- A hop with a backward digest that the cell carries.
  abbrev pub Qualifies : List ℕ → Hop → Type 0
  Qualifies payload h = (d : List ℕ) × (h.backward_digest ≡ some d) × Carries payload d

  zero_field :
      (payload : List ℕ)
      → 11 ≤ length payload
      → (uint16_of (slice payload 1 3) == 0) ≡ true
      → take 2 (drop 1 payload) ≡ 0 ∷ 0 ∷ []
  zero_field [] l h = absurd (omega arith)
  zero_field (a ∷ []) l h = absurd (omega (arith, l))
  zero_field (a ∷ b ∷ []) l h = absurd (omega (arith, l))
  zero_field (a ∷ b ∷ c ∷ p) l h =
      let x : b ≡ 0 = ground arith in let y : c ≡ 0 = ground arith in ap₂ (λ s t. s ∷ t ∷ []) x y

  carried :
      (payload d : List ℕ)
      → Carries payload d
      → (bytes_eq (digest_prefix sha1 d) (slice payload 5 9) && uint16_of (slice payload 1 3) == 0)
        ≡ true
  unfolding digest_prefix
  carried payload d (a, b) =
      rw (a, bytes_eq_refl (take 4 (drop 5 payload))) (ap (λ t. uint16_of t == 0) b)

  recognizes-Qualifies :
      (payload : List ℕ) (h : Hop)
      → 11 ≤ length payload
      → recognizes sha1 payload h ≡ true
      → Qualifies payload h
  unfolding digest_prefix
  recognizes-Qualifies payload h l r = elim (Option-cases h.backward_digest) [
    | inl e ↦ absurd (let n = recognizes-none payload h e in cc)
    | inr (d, e) ↦
        let s = sym (recognizes-some payload d h e) ∙ r in
        let (x, y) = both _ _ s in
        (d, e, (bytes_eq→eq (take 4 (sha1 d)) (take 4 (drop 5 payload)) x, zero_field payload l y))
  ]

  unrecognized :
      (payload : List ℕ) (h : Hop) → recognizes sha1 payload h ≡ false → ¬ Qualifies payload h
  unrecognized payload h r (d, e, c) =
      let s = sym (recognizes-some payload d h e ∙ carried payload d c) ∙ r in cc

  unrecognized-All :
      (payload : List ℕ) (hs : List Hop)
      → All (λ h. recognizes sha1 payload h ≡ false) hs
      → All (λ h. ¬ Qualifies payload h) hs
  unrecognized-All payload [] a = tt
  unrecognized-All payload (h ∷ hs) (e, a) =
      (unrecognized payload h e, unrecognized-All payload hs a)

  -- What the cell adds to a digest: the payload with zeros for its digest field.
  abbrev pub blanked : List ℕ → List ℕ
  blanked payload = take 5 payload ++ (0 ∷ 0 ∷ 0 ∷ 0 ∷ drop 9 payload)

  -- No hop qualifies and nothing changed, or the first hop that does is found, and its backward digest
  -- has taken the cell in.
  abbrev pub Found : List ℕ → List Hop → List Hop × Option ℕ → Type 0
  Found payload hops r =
      ((r.1 ≡ none) × (r.0 ≡ hops) × All (λ h. ¬ Qualifies payload h) hops)
      ⊎ ((i : ℕ) × (h : Hop) × (d : List ℕ) × (r.1 ≡ some i)
          × (get_elem? hops i ≡ some h)
          × (h.backward_digest ≡ some d)
          × Carries payload d
          × All (λ g. ¬ Qualifies payload g) (take i hops)
          × (r.0 ≡ set hops i (record h { backward_digest = some (d ++ blanked payload) })))

  updated :
      (payload d : List ℕ) (h : Hop)
      → h.backward_digest ≡ some d
      → update_hop direction_backward (zero_digest payload) h
        ≡ record h { backward_digest = some (d ++ blanked payload) }
  unfolding update_hop zero_digest
  updated payload d h e =
      ap (λ o. record h { backward_digest = write_digest (zero_digest payload) o }) e

  Search-Found :
      (payload : List ℕ) (hops : List Hop) (r : List Hop × Option ℕ)
      → 11 ≤ length payload
      → Search payload 0 hops r
      → Found payload hops r
  Search-Found payload hops r l (inl (a, b, c)) = inl (a, b, unrecognized-All payload hops c)
  Search-Found payload hops r l (inr (i, h, a, b, c, e, f)) =
      let (d, g, k) = recognizes-Qualifies payload h l c in
      inr (
        i,
        h,
        d,
        a ∙ ap some (omega arith),
        b,
        g,
        k,
        unrecognized-All payload (take i hops) e,
        f ∙ ap (λ x. set hops i x) (updated payload d h g),
      )

  -- A payload shorter than a relay header is refused. For any other the result is the index of the
  -- first hop whose running backward digest, as it stands before the cell, has a sum that begins with
  -- the digest field, provided the recognized field is zero; the cell, with zeros in the digest field,
  -- is added to the backward digest of that hop and of no other. Where no hop qualifies, the index is
  -- -1 and the hops are unchanged.
  pub verify_exact :
      (payload : List ℕ) (hops : List Hop)
      → ((length payload < 11) × (verify_relay_cell_digest sha1 payload hops ≡ err data_too_short))
        ⊎ ((11 ≤ length payload)
            × ((r : List Hop × Option ℕ) × (verify_relay_cell_digest sha1 payload hops ≡ ok r)
                × Found payload hops r))
  unfolding verify_relay_cell_digest
  verify_exact payload hops = elim (Bool-cases (ltb (length payload) 11)) [
    | inl e ↦ inl (ltb→lt (length payload) 11 e, rw e refl)
    | inr e ↦
        let l : 11 ≤ length payload = ground arith in
        inr (
          l,
          (
            try_hops sha1 payload 0 hops,
            rw e refl,
            Search-Found payload hops (try_hops sha1 payload 0 hops) l
                (try_hops-Search payload 0 hops),
          ),
        )
  ]

  digest_field :
      (p x : List ℕ) → 11 ≤ length p → length x ≡ 4 → slice (take 5 p ++ (x ++ drop 9 p)) 5 9 ≡ x
  digest_field p x h k =
      let e = drop-append_exact 5 (take 5 p) (x ++ drop 9 p) (omega (arith, length-take 5 p)) in
      rw e (take-append_exact 4 x (drop 9 p) k)

  stamp_hop-some :
      (payload d : List ℕ) (sender : Hop)
      → sender.forward_digest ≡ some d
      → ((stamp_hop sha1 payload sender).1
          ≡ take 5 payload ++ (digest_prefix sha1 (d ++ zero_digest payload) ++ drop 9 payload))
  unfolding stamp_hop
  stamp_hop-some payload d sender e = rw e refl

  length-digest_prefix : (d : List ℕ) → 4 ≤ length (sha1 d) → length (digest_prefix sha1 d) ≡ 4
  unfolding digest_prefix
  length-digest_prefix d h = omega (arith, length-take 4 (sha1 d))

  bytes_eq_ne : (a b : List ℕ) → a ≢ b → bytes_eq a b ≡ false
  bytes_eq_ne a b n = elim (Bool-cases (bytes_eq a b)) [
    | inl e ↦ absurd (n (bytes_eq→eq a b e))
    | inr e ↦ e
  ]

  -- A cell stamped the way `SendRelayCell` does it, with the digest taken after the cell was added,
  -- is not recognized by a hop whose backward digest was equal to the sender's forward digest before
  -- the cell, for the receiving side compares the digest before the cell; the only exception is a
  -- cell that leaves the first four bytes of the digest as they were. The sum has four bytes.
  pub stamped_unrecognized :
      (payload d : List ℕ) (sender receiver : Hop)
      → 11 ≤ length payload
      → sender.forward_digest ≡ some d
      → receiver.backward_digest ≡ some d
      → 4 ≤ length (sha1 (d ++ zero_digest payload))
      → digest_prefix sha1 d ≢ digest_prefix sha1 (d ++ zero_digest payload)
      → recognizes sha1 (stamp_hop sha1 payload sender).1 receiver ≡ false
  stamped_unrecognized payload d sender receiver long s r sum_long differ =
      let x = digest_prefix sha1 (d ++ zero_digest payload) in
      let l = length-digest_prefix (d ++ zero_digest payload) sum_long in
      rw
        (
          stamp_hop-some payload d sender s,
          recognizes-some _ d receiver r,
          digest_field payload x long l,
          bytes_eq_ne (digest_prefix sha1 d) x differ,
        )
        refl
