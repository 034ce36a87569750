-- ===== src/Circuit/Crypto/Tests.antt =====
-- The onion and digest theorems at concrete hops, with a sum that is easy to compute.
use go_tor.Prelude.{
  ℕ, ◌+◌, ◌*◌, ◌%◌, ◌<◌, ◌≤◌, ◌≡◌, ◌≢◌, ◌⊎◌, refl, true, false, List, [], ◌∷◌, ◌++◌, Option, ok,
  err, length, replicate, arith,
}
use go_tor.Circuit.Crypto.{
  Stream, Hop, new_hop, set_crypto_state, zero_digest, digest_prefix, recognizes,
  verify_relay_cell_digest, stamp_hop, data_too_short,
}
use go_tor.Circuit.Crypto.Onion.{relays_read, relays_read_exact}
use go_tor.Circuit.Crypto.Recognize.{Found, verify_exact, stamped_unrecognized}

-- The number of bytes that went in, four times.
abbrev sum : List ℕ → List ℕ
sum d = replicate 4 (length d % 256)

abbrev stream : ℕ → Stream
stream n = record { key = λ i. (i * 7 + n) % 256; offset = 0 }

abbrev hop : ℕ → List ℕ → Hop
unfolding set_crypto_state new_hop
hop n seed =
    set_crypto_state (stream n) (stream (n + 1)) seed seed (new_hop "A" "h:9001" true false)

abbrev hops : List Hop
hops = hop 3 (1 ∷ []) ∷ new_hop "B" "g:9001" false false ∷ hop 9 [] ∷ []

relays_read_exact_example :
    relays_read hops hops ((1 ∷ 2 ∷ []) ∷ [] ∷ (255 ∷ []) ∷ [])
    ≡ ((1 ∷ 2 ∷ []) ∷ [] ∷ (255 ∷ []) ∷ [])
relays_read_exact_example = relays_read_exact hops ((1 ∷ 2 ∷ []) ∷ [] ∷ (255 ∷ []) ∷ [])

-- Recognized by the last hop, which has taken nothing in.
abbrev reply : List ℕ
reply = 2 ∷ replicate 12 0

verify_exact_example :
    ((length reply < 11) × (verify_relay_cell_digest sum reply hops ≡ err data_too_short))
    ⊎ ((11 ≤ length reply)
        × ((r : List Hop × Option ℕ) × (verify_relay_cell_digest sum reply hops ≡ ok r)
            × Found sum reply hops r))
verify_exact_example = verify_exact sum reply hops

prefix_differs : digest_prefix sum [] ≢ digest_prefix sum ([] ++ zero_digest reply)
unfolding digest_prefix zero_digest
prefix_differs e = absurd (cc)

stamped_unrecognized_example : recognizes sum (stamp_hop sum reply (hop 3 [])).1 (hop 9 []) ≡ false
unfolding hop set_crypto_state new_hop
stamped_unrecognized_example =
    stamped_unrecognized sum reply [] (hop 3 []) (hop 9 []) (omega arith) refl refl (omega arith)
      prefix_differs
