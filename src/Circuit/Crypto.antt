-- ===== src/Circuit/Crypto.antt =====
-- pkg/circuit/circuit.go: the hops of a circuit with their ciphers and running digests.
-- A cipher.Stream is its key stream with the position in it, and a hash.Hash is the list of bytes
-- written to it (its Write never fails). The sum of SHA-1 is an argument.
pub mod Onion
pub mod Recognize
mod Tests
use Prim.Native.Nat.{bit_xor}
use Prim.Native.String.{String}
use go_tor.Prelude.{
  ℕ, ◌+◌, ◌≡◌, Bool, true, false, List, [], ◌∷◌, ◌++◌, ◌&&◌, Option, none, some, Result, ok, err,
  ltb, ◌==◌, if◌then◌else◌, length, take, drop, bytes_eq, refuse_if, ◌>>=◌, ◌>>◌,
}
use go_tor.Cell.Codec.{uint16_of}
use go_tor.Cell.Relay.{slice}

-- A cipher.Stream of AES in counter mode.
pub record Stream : Type 0 where
  pub key : ℕ → ℕ
  pub offset : ℕ

xor_from : (ℕ → ℕ) → ℕ → List ℕ → List ℕ
xor_from key at [] = []
xor_from key at (b ∷ bs) = bit_xor b (key at) ∷ xor_from key (at + 1) bs

-- `s.XORKeyStream(p, p)`
unfoldable pub xor_key_stream : Stream → List ℕ → Stream × List ℕ
unfolding xor_from
xor_key_stream s p = (record s { offset = s.offset + length p }, xor_from s.key s.offset p)

-- Ciphers and digests are nil until the hop's key material is derived.
pub record Hop : Type 0 where
  pub fingerprint : String
  pub address : String
  pub is_guard : Bool
  pub is_exit : Bool
  pub forward_cipher : Option Stream
  pub backward_cipher : Option Stream
  pub forward_digest : Option (List ℕ)
  pub backward_digest : Option (List ℕ)

unfoldable pub new_hop : String → String → Bool → Bool → Hop
new_hop fingerprint address is_guard is_exit = record {
  fingerprint = fingerprint;
  address = address;
  is_guard = is_guard;
  is_exit = is_exit;
  forward_cipher = none;
  backward_cipher = none;
  forward_digest = none;
  backward_digest = none;
}

unfoldable pub set_crypto_state : Stream → Stream → List ℕ → List ℕ → Hop → Hop
set_crypto_state fc bc fd bd h = record h {
  forward_cipher = some fc;
  backward_cipher = some bc;
  forward_digest = some fd;
  backward_digest = some bd;
}

-- A cipher that is nil passes the bytes on.
unfoldable pub apply_cipher : Option Stream → List ℕ → Option Stream × List ℕ
apply_cipher none p = (none, p)
apply_cipher (some s) p = let (s', q) = xor_key_stream s p in (some s', q)

unfoldable pub apply_forward : Hop → List ℕ → Hop × List ℕ
apply_forward h p =
    let (s, q) = apply_cipher h.forward_cipher p in (record h { forward_cipher = s }, q)

unfoldable pub apply_backward : Hop → List ℕ → Hop × List ℕ
apply_backward h p =
    let (s, q) = apply_cipher h.backward_cipher p in (record h { backward_cipher = s }, q)

-- The loop runs from the last hop to the first.
unfoldable pub encrypt_forward : List Hop → List ℕ → List Hop × List ℕ
encrypt_forward [] p = ([], p)
encrypt_forward (h ∷ hs) p =
    let (hs', q) = encrypt_forward hs p in let (h', r) = apply_forward h q in (h' ∷ hs', r)

-- The loop runs from the first hop to the last.
unfoldable pub decrypt_backward : List Hop → List ℕ → List Hop × List ℕ
decrypt_backward [] p = ([], p)
decrypt_backward (h ∷ hs) p =
    let (h', q) = apply_backward h p in let (hs', r) = decrypt_backward hs q in (h' ∷ hs', r)

pub data Direction : Type 0 where
  direction_forward direction_backward : Direction

pub data DigestError : Type 0 where
  data_too_short digest_not_initialized digest_mismatch : DigestError

-- The copy of a relay cell with its digest field (bytes 5 to 8) zeroed.
unfoldable pub zero_digest : List ℕ → List ℕ
zero_digest p = take 5 p ++ (0 ∷ 0 ∷ 0 ∷ 0 ∷ drop 9 p)

-- `hop.…Digest.Write(cellCopy)` where the digest is not nil.
unfoldable pub write_digest : List ℕ → Option (List ℕ) → Option (List ℕ)
write_digest p none = none
write_digest p (some d) = some (d ++ p)

unfoldable pub update_hop : Direction → List ℕ → Hop → Hop
unfolding write_digest
update_hop direction_forward p h = record h { forward_digest = write_digest p h.forward_digest }
update_hop direction_backward p h = record h { backward_digest = write_digest p h.backward_digest }

update_hops : Direction → List ℕ → List Hop → List Hop
update_hops dir p [] = []
update_hops dir p (h ∷ hs) = update_hop dir p h ∷ update_hops dir p hs

unfoldable pub update_hop_digests : Direction → List ℕ → List Hop → Result DigestError (List Hop)
unfolding update_hops update_hop
update_hop_digests dir payload hops = do
  refuse_if (ltb (length payload) 11) data_too_short
  ok (update_hops dir (zero_digest payload) hops)

module _ (sha1 : List ℕ → List ℕ) where
  -- The first four bytes of `digest.Sum(nil)`.
  unfoldable pub digest_prefix : List ℕ → List ℕ
  digest_prefix written = take 4 (sha1 written)

  -- Does a hop recognize the cell?
  unfoldable pub recognizes : List ℕ → Hop → Bool
  unfolding digest_prefix
  recognizes payload h = elim h.backward_digest [
    | none ↦ false
    | some d ↦ bytes_eq (digest_prefix d) (slice payload 5 9) && uint16_of (slice payload 1 3) == 0
  ]

  -- The loop over the hops: the hops after it, and the index of the hop that recognized the cell,
  -- counted from the first one tried.
  unfoldable pub try_hops : List ℕ → ℕ → List Hop → List Hop × Option ℕ
  unfolding update_hop
  try_hops payload idx [] = ([], none)
  try_hops payload idx (h ∷ hs) =
      let rest = try_hops payload (idx + 1) hs in
      if recognizes payload h
      then (update_hop direction_backward (zero_digest payload) h ∷ hs, some idx)
      else (h ∷ rest.0, rest.1)

  -- `verifyRelayCellDigest`: `none` is the index -1.
  unfoldable pub verify_relay_cell_digest :
      List ℕ → List Hop → Result DigestError (List Hop × Option ℕ)
  unfolding try_hops recognizes
  verify_relay_cell_digest payload hops = do
    refuse_if (ltb (length payload) 11) data_too_short
    ok (try_hops payload 0 hops)

  -- The last hop's forward digest takes the cell in, and gives the cell its digest field.
  unfoldable pub stamp_hop : List ℕ → Hop → Hop × List ℕ
  unfolding digest_prefix
  stamp_hop payload h = elim h.forward_digest [
    | none ↦ (h, payload)
    | some d ↦
        let written = d ++ zero_digest payload in
        (
          record h { forward_digest = some written },
          take 5 payload ++ (digest_prefix written ++ drop 9 payload),
        )
  ]

  unfoldable pub stamp_exit : List ℕ → List Hop → List Hop × List ℕ
  unfolding stamp_hop
  stamp_exit payload [] = ([], payload)
  stamp_exit payload (h ∷ []) = let (h', p) = stamp_hop payload h in (h' ∷ [], p)
  stamp_exit payload (h ∷ g ∷ hs) = let (rest, p) = stamp_exit payload (g ∷ hs) in (h ∷ rest, p)
