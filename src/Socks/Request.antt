-- ===== src/Socks/Request.antt =====
-- The request of a client: what is understood of it, and how it is refused.
use go_tor.Prelude.{
  ℕ, ◌^◌, ◌<◌, ◌≡◌, refl, ap, ◌∙◌, inl, inr, ◌⊎◌, Bool, true, false, not, List, [], ◌∷◌, ◌++◌,
  append_assoc, Option, none, some, ok, err, ◌==◌, if◌then◌else◌, length, be16, of_be16-be16,
  Bool-cases, drop, arith,
}
use go_tor.Cell.Codec.{byte_of, uint16_of}
use go_tor.Circuit.Streams.{decimal}
use go_tor.Cell.Io.{read_full}
use go_tor.Socks.{
  Conn, Served, SocksError, RequestInfo, no_bind, reading, write_conn, fails_with, replies_with,
  header_failed, address_failed, port_failed, unsupported_version, unsupported_address,
  reply_address_not_supported, reply_bytes, reply_general_failure, send_reply, refused_command,
  target_of, read_address, refuse_address, read_domain, reply_command_not_supported, read_port,
  after_header, read_request,
}
use go_tor.Socks.Greeting.{conn, reading-exact}

-- An address as RFC 1928 writes it, and its text.
pub data Address : Type 0 where
  ipv4 domain ipv6 : List ℕ → Address

abbrev pub address_type : Address → ℕ
address_type (ipv4 ip) = 1
address_type (domain name) = 3
address_type (ipv6 ip) = 4

abbrev pub address_bytes : Address → List ℕ
address_bytes (ipv4 ip) = ip
address_bytes (domain name) = length name ∷ name
address_bytes (ipv6 ip) = ip

abbrev pub IsAddress : Address → Type 0
IsAddress (ipv4 ip) = length ip ≡ 4
IsAddress (domain name) = Unit
IsAddress (ipv6 ip) = length ip ≡ 16

abbrev pub request_bytes : ℕ → Address → ℕ → List ℕ
request_bytes cmd a port = 5 ∷ cmd ∷ 0 ∷ address_type a ∷ (address_bytes a ++ be16 port)

module _ (ip_text : List ℕ → List ℕ) where
  abbrev pub address_text : Address → List ℕ
  address_text (ipv4 ip) = ip_text ip
  address_text (domain name) = name
  address_text (ipv6 ip) = ip_text ip

  read_port-exact :
      (cmd port : ℕ) (addr rest output : List ℕ) (w : ℕ)
      → port < 2 ^ 16
      → read_port ip_text cmd addr (conn (be16 port ++ rest) output w)
        ≡ (conn rest output w, ok (record { cmd = cmd; target_addr = target_of cmd addr port }))
  read_port-exact cmd port addr rest output w h =
      reading-exact 2 (be16 port) rest output w (replies_with reply_general_failure port_failed)
        (λ p c. (c, ok (record { cmd = cmd; target_addr = target_of cmd addr (uint16_of p) }))) refl
      ∙ ap
          (λ n. (conn rest output w, ok (record { cmd = cmd; target_addr = target_of cmd addr n })))
          (of_be16-be16 port h)

  read_address-exact :
      (a : Address) (more output : List ℕ) (w : ℕ) (k : List ℕ → Conn → Served RequestInfo)
      → IsAddress a
      → read_address ip_text (address_type a) (conn (address_bytes a ++ more) output w) k
        ≡ k (address_text a) (conn more output w)
  unfolding read_address
  read_address-exact (ipv4 ip) more output w k h =
      reading-exact 4 ip more output w refuse_address (λ i c. k (ip_text i) c) h
  read_address-exact (domain name) more output w k h =
      reading-exact 1 (length name ∷ []) (name ++ more) output w refuse_address (read_domain k) refl
      ∙ reading-exact (length name) name more output w refuse_address k refl
  read_address-exact (ipv6 ip) more output w k h =
      reading-exact 16 ip more output w refuse_address (λ i c. k (ip_text i) c) h

  after_header-command :
      (dns_enabled : Bool) (cmd kind : ℕ) (c : Conn)
      → refused_command dns_enabled cmd ≡ none
      → after_header ip_text dns_enabled (5 ∷ cmd ∷ 0 ∷ kind ∷ []) c
        ≡ read_address ip_text kind c (read_port ip_text cmd)
  after_header-command dns_enabled cmd kind c h =
      ap
        (λ o. elim o [
          | some e ↦ replies_with reply_command_not_supported e c
          | none ↦ read_address ip_text kind c (read_port ip_text cmd)
        ])
        h

  understood :
      (dns_enabled : Bool) (cmd port : ℕ) (a : Address) (rest output : List ℕ) (w : ℕ)
      → refused_command dns_enabled cmd ≡ none
      → IsAddress a
      → port < 2 ^ 16
      → read_request ip_text dns_enabled (conn (request_bytes cmd a port ++ rest) output w) ≡ (
        conn rest output w,
        ok (record { cmd = cmd; target_addr = target_of cmd (address_text a) port }),
      )
  unfolding read_request
  understood dns_enabled cmd port a rest output w h i l =
      let more = be16 port ++ rest in
      let header = 5 ∷ cmd ∷ 0 ∷ address_type a ∷ [] in
      ap (λ t. read_request ip_text dns_enabled (conn (5 ∷ cmd ∷ 0 ∷ address_type a ∷ t) output w))
        (append_assoc (address_bytes a) (be16 port) rest)
      ∙ reading-exact 4 header (address_bytes a ++ more) output w (fails_with header_failed)
          (after_header ip_text dns_enabled) refl
      ∙ after_header-command dns_enabled cmd (address_type a)
          (conn (address_bytes a ++ more) output w) h
      ∙ read_address-exact a more output w (read_port ip_text cmd) i
      ∙ read_port-exact cmd port (address_text a) rest output w l

  connect_target :
      (addr : List ℕ) (port : ℕ) → target_of 1 addr port ≡ addr ++ (58 ∷ decimal 5 port)
  unfolding target_of
  connect_target addr port = refl

  resolved_target :
      (cmd port : ℕ) (addr : List ℕ) → (cmd ≡ 240) ⊎ (cmd ≡ 241) → target_of cmd addr port ≡ addr
  unfolding target_of
  resolved_target cmd port addr (inl e) = rw e refl
  resolved_target cmd port addr (inr e) = rw e refl

  resolve_allowed :
      (dns_enabled : Bool) (cmd : ℕ)
      → dns_enabled ≡ true
      → (cmd ≡ 240) ⊎ (cmd ≡ 241)
      → refused_command dns_enabled cmd ≡ none
  unfolding refused_command
  resolve_allowed dns_enabled cmd d (inl e) = rw (e, d) refl
  resolve_allowed dns_enabled cmd d (inr e) = rw (e, d) refl

  connect_allowed : (dns_enabled : Bool) → refused_command dns_enabled 1 ≡ none
  unfolding refused_command
  connect_allowed dns_enabled = refl

  -- A CONNECT request (command 1) is read back with the text of its address, a colon and its port in
  -- decimal as the target; where resolving is enabled, a request to resolve a name or an address
  -- (commands 240 and 241) with the text of its address alone. Nothing is written, and what follows the
  -- request is left unread.
  pub read_request-request_bytes :
      (dns_enabled : Bool) (port : ℕ) (a : Address) (rest output : List ℕ) (w : ℕ)
      → IsAddress a
      → port < 2 ^ 16
      → (read_request ip_text dns_enabled (conn (request_bytes 1 a port ++ rest) output w) ≡ (
        conn rest output w,
        ok (record { cmd = 1; target_addr = address_text a ++ (58 ∷ decimal 5 port) }),
      ))
        × ((cmd : ℕ)
            → (cmd ≡ 240) ⊎ (cmd ≡ 241)
            → dns_enabled ≡ true
            → read_request ip_text dns_enabled (conn (request_bytes cmd a port ++ rest) output w)
              ≡ (conn rest output w, ok (record { cmd = cmd; target_addr = address_text a })))
  read_request-request_bytes dns_enabled port a rest output w i l = (
    understood dns_enabled 1 port a rest output w (connect_allowed dns_enabled) i l
        ∙ ap (λ t. (conn rest output w, ok (record { cmd = 1; target_addr = t })))
            (connect_target (address_text a) port),
    λ cmd c d.
        understood dns_enabled cmd port a rest output w (resolve_allowed dns_enabled cmd d c) i l
        ∙ ap (λ t. (conn rest output w, ok (record { cmd = cmd; target_addr = t })))
            (resolved_target cmd port (address_text a) c),
  )

-- What the client sees of a request: nothing where it is understood or its header is missing, one reply
-- with a status other than success where it is refused, as far as the connection takes writes.
abbrev pub IsAnswered : List ℕ → ℕ → Served RequestInfo → Type 0
IsAnswered output w (c, ok request) = c.output ≡ output
IsAnswered output w (c, err e) =
    ((e ≡ header_failed) × (c.output ≡ output))
    ⊎ ((status : ℕ) × (0 < status)
        × (c.output ≡ (if w == 0 then output else output ++ reply_bytes status no_bind)))

after_read :
    (P : Served RequestInfo → Type 0) (output : List ℕ) (w : ℕ) (fails : Conn → Served RequestInfo)
    (k : List ℕ → Conn → Served RequestInfo)
    → P (fails (conn [] output w))
    → ((p rest : List ℕ) → P (k p (conn rest output w)))
    → (o : Option (List ℕ × List ℕ))
    → P (elim o [
      | none ↦ fails (conn [] output w)
      | some (bytes, rest) ↦ k bytes (conn rest output w)
    ])
after_read P output w fails k f g none = f
after_read P output w fails k f g (some (p, rest)) = g p rest

reading_either :
    (P : Served RequestInfo → Type 0) (n : ℕ) (input output : List ℕ) (w : ℕ)
    (fails : Conn → Served RequestInfo) (k : List ℕ → Conn → Served RequestInfo)
    → P (fails (conn [] output w))
    → ((p rest : List ℕ) → P (k p (conn rest output w)))
    → P (reading n (conn input output w) fails k)
reading_either P n input output w fails k f g =
    after_read P output w fails k f g (read_full n input)

write_output :
    (p input output : List ℕ) (w : ℕ)
    → (write_conn p (conn input output w)).0.output ≡ (if w == 0 then output else output ++ p)
unfolding write_conn
write_output p input output w = elim (Bool-cases (w == 0)) [
  | inl z ↦ rw (write_conn, z) refl
  | inr z ↦ rw (write_conn, z) refl
]

replies-IsAnswered :
    (status : ℕ) (e : SocksError) (input output : List ℕ) (w : ℕ)
    → 0 < status
    → IsAnswered output w (replies_with status e (conn input output w))
unfolding send_reply
replies-IsAnswered status e input output w h =
    inr (status, h, write_output (reply_bytes status no_bind) input output w)

if_either :
    (P : Served RequestInfo → Type 0) (b : Bool) (x y : Served RequestInfo)
    → P x
    → P y
    → P (if b then x else y)
if_either P true x y h k = h
if_either P false x y h k = k

module _ (ip_text : List ℕ → List ℕ) where
  read_port-IsAnswered :
      (cmd : ℕ) (addr input output : List ℕ) (w : ℕ)
      → IsAnswered output w (read_port ip_text cmd addr (conn input output w))
  read_port-IsAnswered cmd addr input output w =
      reading_either (IsAnswered output w) 2 input output w
        (replies_with reply_general_failure port_failed)
        (λ p c. (c, ok (record { cmd = cmd; target_addr = target_of cmd addr (uint16_of p) })))
        (replies-IsAnswered reply_general_failure port_failed [] output w (omega arith))
        (λ p rest. refl)

  refuse_address-IsAnswered :
      (output : List ℕ) (w : ℕ) → IsAnswered output w (refuse_address (conn [] output w))
  refuse_address-IsAnswered output w =
      replies-IsAnswered reply_general_failure address_failed [] output w (omega arith)

  read_address-IsAnswered :
      (kind cmd : ℕ) (input output : List ℕ) (w : ℕ)
      → IsAnswered output w
          (read_address ip_text kind (conn input output w) (read_port ip_text cmd))
  unfolding read_address
  read_address-IsAnswered kind cmd input output w =
      let k = read_port ip_text cmd in
      let P = IsAnswered output w in
      let f = refuse_address-IsAnswered output w in
      if_either P (kind == 1) _ _
        (reading_either P 4 input output w refuse_address (λ ip c. k (ip_text ip) c) f
          (λ p rest. read_port-IsAnswered cmd (ip_text p) rest output w))
        (if_either P (kind == 3) _ _
          (reading_either P 1 input output w refuse_address (read_domain k) f (λ n rest.
            reading_either P (byte_of n) rest output w refuse_address k f
              (λ p more. read_port-IsAnswered cmd p more output w)))
          (if_either P (kind == 4) _ _
            (reading_either P 16 input output w refuse_address (λ ip c. k (ip_text ip) c) f
              (λ p rest. read_port-IsAnswered cmd (ip_text p) rest output w))
            (replies-IsAnswered reply_address_not_supported unsupported_address input output w
              (omega arith))))

  command-IsAnswered :
      (o : Option SocksError) (kind cmd : ℕ) (input output : List ℕ) (w : ℕ)
      → IsAnswered output w (elim o [
        | some e ↦ replies_with reply_command_not_supported e (conn input output w)
        | none ↦ read_address ip_text kind (conn input output w) (read_port ip_text cmd)
      ])
  command-IsAnswered none kind cmd input output w = read_address-IsAnswered kind cmd input output w
  command-IsAnswered (some e) kind cmd input output w =
      replies-IsAnswered reply_command_not_supported e input output w (omega arith)

  -- Whatever the client sends as its request: where it is understood, or too short for a header,
  -- nothing is written; otherwise the client gets exactly one reply, with a status other than success,
  -- unless the connection takes no more writes.
  pub read_request-IsAnswered :
      (dns_enabled : Bool) (input output : List ℕ) (w : ℕ)
      → IsAnswered output w (read_request ip_text dns_enabled (conn input output w))
  unfolding read_request
  read_request-IsAnswered dns_enabled input output w =
      let P = IsAnswered output w in
      reading_either P 4 input output w (fails_with header_failed)
        (after_header ip_text dns_enabled) (inl (refl, refl))
        (λ header rest.
          if_either P (not (byte_of header == 5)) _ _
            (replies-IsAnswered reply_general_failure unsupported_version rest output w
              (omega arith))
            (command-IsAnswered (refused_command dns_enabled (byte_of (drop 1 header)))
              (byte_of (drop 3 header)) (byte_of (drop 1 header)) rest output w))
