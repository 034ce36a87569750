-- ===== src/Cell/Replay/Recent.antt =====
-- When the automatic mode notices that a cell is replayed.
use go_tor.Prelude.{
  ℕ, zero, suc, ◌+◌, ◌*◌, ◌<◌, ◌^◌, ◌≡◌, ◌≢◌, refl, sym, subst, ap, ◌∙◌, inl, inr, true, false,
  List, [], ◌∷◌, ◌++◌, none, some, leb, if◌then◌else◌, length, length-append, take, replicate,
  bytes_eq, bytes_eq→eq, bytes_eq_refl, Bool-cases, arith,
}
use go_tor.Cell.Replay.{
  duplicate_digest, ReplayDirection, digest_of, new_replay_protection_with_window,
}
use go_tor.Cell.Replay.Auto.{accept}
use go_tor.Cell.Replay.History.{remembered}
use go_tor.Cell.Replay.Run.{run_auto, spec_run, run_auto_exact}
use go_tor.Cell.Replay.Table.{Digest}

remembered_append :
    (d : Digest) (k : ℕ) (newer h : List Digest)
    → remembered d newer ≡ false
    → remembered d (take (suc k) (newer ++ (d ∷ h))) ≡ leb (length newer) k
unfolding remembered
remembered_append d k [] h fresh = rw (bytes_eq_refl d) (ground arith)
remembered_append d zero (e ∷ newer) h fresh = ground arith
remembered_append d (suc k) (e ∷ newer) h fresh = ground (arith, remembered_append d k newer h)

-- None of the cells is empty, and no digest of theirs occurs twice or among those seen before.
abbrev pub AllFresh : (List ℕ → List ℕ) → List (List ℕ) → List Digest → Type 0
AllFresh sha256 [] seen = Unit
AllFresh sha256 (c ∷ cs) seen =
    (c ≢ [])
    × (remembered (digest_of sha256 c) seen ≡ false)
    × AllFresh sha256 cs (digest_of sha256 c ∷ seen)

-- The history when all the cells are accepted.
after : (List ℕ → List ℕ) → List (List ℕ) → List Digest → List Digest
after sha256 [] h = h
after sha256 (c ∷ cs) h = after sha256 cs (digest_of sha256 c ∷ h)

remembered-take :
    (d : Digest) (k : ℕ) (h : List Digest)
    → remembered d h ≡ false
    → remembered d (take k h) ≡ false
unfolding remembered
remembered-take d zero h e = refl
remembered-take d (suc k) [] e = refl
remembered-take d (suc k) (x ∷ h) e = ground (arith, remembered-take d k h)

after-append :
    (sha256 : List ℕ → List ℕ) (xs : List (List ℕ)) (g h : List Digest)
    → after sha256 xs (g ++ h) ≡ after sha256 xs g ++ h
unfolding after
after-append sha256 [] g h = refl
after-append sha256 (c ∷ cs) g h = after-append sha256 cs (digest_of sha256 c ∷ g) h

after_both :
    (sha256 : List ℕ → List ℕ) (xs ys : List (List ℕ)) (h : List Digest)
    → after sha256 (xs ++ ys) h ≡ after sha256 ys (after sha256 xs h)
unfolding after
after_both sha256 [] ys h = refl
after_both sha256 (c ∷ cs) ys h = after_both sha256 cs ys (digest_of sha256 c ∷ h)

length-after :
    (sha256 : List ℕ → List ℕ) (xs : List (List ℕ)) (h : List Digest)
    → length (after sha256 xs h) ≡ length xs + length h
unfolding after
length-after sha256 [] h = omega arith
length-after sha256 (c ∷ cs) h = omega (arith, length-after sha256 cs (digest_of sha256 c ∷ h))

-- Fresh cells are all accepted.
fresh_run :
    (sha256 : List ℕ → List ℕ) (size : ℕ) (xs ys : List (List ℕ)) (h : List Digest)
    → AllFresh sha256 xs h
    → spec_run sha256 size (xs ++ ys) h
      ≡ replicate (length xs) none ++ spec_run sha256 size ys (after sha256 xs h)
unfolding spec_run accept after
fresh_run sha256 size [] ys h f = refl
fresh_run sha256 size ([] ∷ cs) ys h f = absurd (f.0 refl)
fresh_run sha256 size ((b ∷ bs) ∷ cs) ys h (n, e, f) =
    let t = remembered-take (digest_of sha256 (b ∷ bs)) (suc size) h e in
    rw t (ap (λ v. none ∷ v) (fresh_run sha256 size cs ys (digest_of sha256 (b ∷ bs) ∷ h) f))

-- A digest that has been seen is not among those of fresh cells.
fresh_misses :
    (sha256 : List ℕ → List ℕ) (d : Digest) (xs : List (List ℕ)) (seen h : List Digest)
    → remembered d seen ≡ true
    → AllFresh sha256 xs seen
    → remembered d h ≡ false
    → remembered d (after sha256 xs h) ≡ false
unfolding after remembered
fresh_misses sha256 d [] seen h s f e = e
fresh_misses sha256 d (c ∷ cs) seen h s (n, m, f) e =
    let x = digest_of sha256 c in
    elim (Bool-cases (bytes_eq d x)) [
      | inl q ↦ absurd (
          let t = subst (λ y. remembered y seen ≡ true) (bytes_eq→eq d x q) s in
          let u = sym t ∙ m in cc)
      | inr q ↦ fresh_misses sha256 d cs (x ∷ seen) (x ∷ h) (rw (q, s) refl) f (rw (q, e) refl)
    ]

last_verdict :
    (sha256 : List ℕ → List ℕ) (size : ℕ) (c : List ℕ) (newer h : List Digest)
    → c ≢ []
    → remembered (digest_of sha256 c) newer ≡ false
    → spec_run sha256 size (c ∷ []) (newer ++ (digest_of sha256 c ∷ h))
      ≡ (if leb (length newer) size then some duplicate_digest else none) ∷ []
unfolding spec_run accept
last_verdict sha256 size [] newer h n f = absurd (n refl)
last_verdict sha256 size (b ∷ bs) newer h n f = elim (Bool-cases (leb (length newer) size)) [
  | inl e ↦ rw (remembered_append (digest_of sha256 (b ∷ bs)) size newer h f, e) refl
  | inr e ↦ rw (remembered_append (digest_of sha256 (b ∷ bs)) size newer h f, e) refl
]

rest_fresh :
    (sha256 : List ℕ → List ℕ) (xs ys : List (List ℕ)) (h : List Digest)
    → AllFresh sha256 (xs ++ ys) h
    → AllFresh sha256 ys (after sha256 xs h)
unfolding after
rest_fresh sha256 [] ys h f = f
rest_fresh sha256 (c ∷ cs) ys h f = rest_fresh sha256 cs ys (digest_of sha256 c ∷ h) f.2

-- From a new `ReplayProtection`, in one direction: nonempty cells with different digests are all
-- accepted, and when one of them, with `newer` ones accepted after it, is offered again, it is refused
-- as a duplicate if these are at most the window size, and accepted a second time if they are more. The
-- number of cells and twice the window size are together below 2^64.
pub replay_detected_iff_recent :
    (sha256 : List ℕ → List ℕ) (direction : ReplayDirection) (size : ℕ) (c : List ℕ)
    (older newer : List (List ℕ))
    → AllFresh sha256 (older ++ (c ∷ newer)) []
    → length (older ++ (c ∷ newer)) + 1 + size * 2 < 2 ^ 64
    → run_auto sha256 direction
        ((older ++ (c ∷ newer)) ++ (c ∷ []))
        (new_replay_protection_with_window size)
      ≡ replicate (length (older ++ (c ∷ newer))) none
        ++ ((if leb (length newer) size then some duplicate_digest else none) ∷ [])
unfolding after remembered
replay_detected_iff_recent sha256 direction size c older newer f bound =
    let all = older ++ (c ∷ newer) in
    let d = digest_of sha256 c in
    let h = after sha256 older [] in
    let g = rest_fresh sha256 older (c ∷ newer) [] f in
    let misses = fresh_misses sha256 d newer (d ∷ h) [] (rw (bytes_eq_refl d) refl) g.2 refl in
    let history : after sha256 all [] ≡ after sha256 newer [] ++ (d ∷ h) =
      after_both sha256 older (c ∷ newer) [] ∙ after-append sha256 newer [] (d ∷ h) in
    let n : length (after sha256 newer []) ≡ length newer =
      omega (arith, length-after sha256 newer []) in
    run_auto_exact sha256 direction size (all ++ (c ∷ []))
      (omega (arith, bound, length-append all (c ∷ [])))
    ∙ fresh_run sha256 size all (c ∷ []) [] f
    ∙ ap (λ t. replicate (length all) none ++ spec_run sha256 size (c ∷ []) t) history
    ∙ ap (λ t. replicate (length all) none ++ t)
        (last_verdict sha256 size c (after sha256 newer []) h g.0 misses)
    ∙ ap
        (λ t.
          replicate (length all) none
          ++ ((if leb t size then some duplicate_digest else none) ∷ []))
        n
