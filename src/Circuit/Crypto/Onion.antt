-- ===== src/Circuit/Crypto/Onion.antt =====
-- Onion encryption: what the client wraps, the relays peel, and the other way round; and the two
-- ends stay in step, so that it holds for every later cell too.
use go_tor.Prelude.{ℕ, suc, ◌+◌, ◌≡◌, refl, ap, ap₂, List, [], ◌∷◌, Option, none, some, length}
use go_tor.Prelude.Xor.{bit_xor_twice}
use go_tor.Circuit.Crypto.{
  Stream, xor_from, xor_key_stream, Hop, apply_cipher, apply_forward, apply_backward,
  encrypt_forward, decrypt_backward,
}

xor_from_twice : (key : ℕ → ℕ) (at : ℕ) (p : List ℕ) → xor_from key at (xor_from key at p) ≡ p
unfolding xor_from
xor_from_twice key at [] = refl
xor_from_twice key at (b ∷ bs) = ap₂ ◌∷◌ (bit_xor_twice b (key at)) (xor_from_twice key (at + 1) bs)

length-xor_from : (key : ℕ → ℕ) (at : ℕ) (p : List ℕ) → length (xor_from key at p) ≡ length p
unfolding xor_from
length-xor_from key at [] = refl
length-xor_from key at (b ∷ bs) = ap suc (length-xor_from key (at + 1) bs)

-- The same stream at the same place undoes itself, and both copies move on by the same length.
apply_cipher_twice :
    (s : Option Stream) (p : List ℕ)
    → (apply_cipher s (apply_cipher s p).1 ≡ ((apply_cipher s p).0, p))
unfolding apply_cipher xor_key_stream
apply_cipher_twice none p = refl
apply_cipher_twice (some s) p =
    ap₂ (λ n q. (some (record s { offset = s.offset + n }), q)) (length-xor_from s.key s.offset p)
      (xor_from_twice s.key s.offset p)

apply_forward_twice :
    (h : Hop) (p : List ℕ) → apply_forward h (apply_forward h p).1 ≡ ((apply_forward h p).0, p)
unfolding apply_forward
apply_forward_twice h p =
    ap (λ t. (record h { forward_cipher = t.0 }, t.1)) (apply_cipher_twice h.forward_cipher p)

apply_backward_twice :
    (h : Hop) (p : List ℕ) → apply_backward h (apply_backward h p).1 ≡ ((apply_backward h p).0, p)
unfolding apply_backward
apply_backward_twice h p =
    ap (λ t. (record h { backward_cipher = t.0 }, t.1)) (apply_cipher_twice h.backward_cipher p)

-- The relays, each with the same key stream as the client's record of it: the guard peels first.
unfoldable pub peel : List Hop → List ℕ → List Hop × List ℕ
peel [] p = ([], p)
peel (h ∷ hs) p = let (h', q) = apply_forward h p in let (hs', r) = peel hs q in (h' ∷ hs', r)

-- A reply on its way to the client: the exit encrypts first, the guard last.
unfoldable pub wrap : List Hop → List ℕ → List Hop × List ℕ
wrap [] p = ([], p)
wrap (h ∷ hs) p = let (hs', q) = wrap hs p in let (h', r) = apply_backward h q in (h' ∷ hs', r)

pub peel-encrypt_forward :
    (hops : List Hop) (p : List ℕ)
    → peel hops (encrypt_forward hops p).1 ≡ ((encrypt_forward hops p).0, p)
unfolding peel encrypt_forward
peel-encrypt_forward [] p = refl
peel-encrypt_forward (h ∷ hs) p =
    let q = (encrypt_forward hs p).1 in
    let e = apply_forward_twice h q in let ih = peel-encrypt_forward hs p in rw (e, ih)

decrypt_backward-wrap :
    (hops : List Hop) (p : List ℕ) → decrypt_backward hops (wrap hops p).1 ≡ ((wrap hops p).0, p)
unfolding wrap decrypt_backward
decrypt_backward-wrap [] p = refl
decrypt_backward-wrap (h ∷ hs) p =
    let e = apply_backward_twice h (wrap hs p).1 in
    let ih = decrypt_backward-wrap hs p in rw (e, ih)

-- Payloads that the client encrypts one after another, as the exit reads them.
unfoldable pub relays_read : List Hop → List Hop → List (List ℕ) → List (List ℕ)
relays_read client relays [] = []
relays_read client relays (p ∷ ps) =
    let (client', q) = encrypt_forward client p in
    let (relays', r) = peel relays q in r ∷ relays_read client' relays' ps

-- Payloads that the exit sends back one after another, as the client reads them.
unfoldable pub client_reads : List Hop → List Hop → List (List ℕ) → List (List ℕ)
client_reads client relays [] = []
client_reads client relays (p ∷ ps) =
    let (relays', q) = wrap relays p in
    let (client', r) = decrypt_backward client q in r ∷ client_reads client' relays' ps

-- Relays that hold the same ciphers as the client's hops read every one of its payloads, in order,
-- whatever the hops and their number.
pub relays_read_exact :
    (hops : List Hop) (payloads : List (List ℕ)) → relays_read hops hops payloads ≡ payloads
unfolding relays_read
relays_read_exact hops [] = refl
relays_read_exact hops (p ∷ ps) =
    let e = peel-encrypt_forward hops p in
    rw e (ap (λ t. p ∷ t) (relays_read_exact (encrypt_forward hops p).0 ps))

-- The client reads every payload that such relays send back, in order.
pub client_reads_exact :
    (hops : List Hop) (payloads : List (List ℕ)) → client_reads hops hops payloads ≡ payloads
unfolding client_reads
client_reads_exact hops [] = refl
client_reads_exact hops (p ∷ ps) =
    let e = decrypt_backward-wrap hops p in
    rw e (ap (λ t. p ∷ t) (client_reads_exact (wrap hops p).0 ps))
