-- ===== src/Socks.antt =====
-- pkg/socks/socks.go: the SOCKS5 protocol as the server speaks it.
-- A connection is the bytes that the client still sends before its end or the deadline, the bytes
-- written to it, and how many more writes succeed. The text of an IP address (net.IP.String) is an
-- argument.
pub mod Greeting
pub mod Request
pub mod Connect
mod Tests
use go_tor.Prelude.{
  ℕ, zero, suc, ◌+◌, ◌-◌, ◌≡◌, Bool, true, false, not, ◌||◌, ◌&&◌, List, [], ◌∷◌, ◌++◌, Option,
  none, some, Result, ok, err, ltb, ◌==◌, if◌then◌else◌, length, take, drop, be16, be32,
}
use go_tor.Prelude.Subset.{elem}
use go_tor.Cell.Codec.{uint16_of, byte_of}
use go_tor.Cell.Io.{read_full}
use go_tor.Circuit.Streams.{decimal}
use go_tor.Circuit.Dns.{to4}

pub record Conn : Type 0 where
  pub input : List ℕ
  pub output : List ℕ
  pub writes : ℕ

-- `conn.Write`
unfoldable pub write_conn : List ℕ → Conn → Conn × Bool
write_conn p c =
    if c.writes == 0
    then (c, false)
    else (record c { output = c.output ++ p; writes = c.writes - 1 }, true)

pub data SocksError : Type 0 where
  header_failed unsupported_version methods_failed no_acceptable_methods : SocksError
  write_failed auth_version_failed unsupported_auth_version : SocksError
  username_length_failed username_failed password_length_failed password_failed : SocksError
  dns_disabled unsupported_command unknown_command : SocksError
  address_failed unsupported_address port_failed : SocksError

-- A call that reads and writes, and what it returns.
abbrev pub Served : Type 0 → Type 0
Served A = Conn × Result SocksError A

-- `io.ReadFull` of `n` bytes. One that fails has taken what there was.
abbrev pub reading :
    {A : Type 0} → ℕ → Conn → (Conn → Served A) → (List ℕ → Conn → Served A) → Served A
reading n c fails k = elim (read_full n c.input) [
  | none ↦ fails (record c { input = [] })
  | some (bytes, rest) ↦ k bytes (record c { input = rest })
]

abbrev pub fails_with : {A : Type 0} → SocksError → Conn → Served A
fails_with e c = (c, err e)

-- A write, and the call where it succeeds.
abbrev pub writing : {A : Type 0} → List ℕ → Conn → (Conn → Served A) → Served A
writing p c k = let (c', sent) = write_conn p c in if sent then k c' else (c', err write_failed)

-- `authenticatePassword`, from its last step to its first.
abbrev pub after_password : List ℕ → List ℕ → Conn → Served (List ℕ)
after_password username password c = writing (1 ∷ 0 ∷ []) c (λ c'. (c', ok username))

abbrev pub after_plen : List ℕ → List ℕ → Conn → Served (List ℕ)
after_plen username plen c =
    reading (byte_of plen) c (fails_with password_failed) (after_password username)

abbrev pub after_username : List ℕ → Conn → Served (List ℕ)
after_username username c = reading 1 c (fails_with password_length_failed) (after_plen username)

abbrev pub after_ulen : List ℕ → Conn → Served (List ℕ)
after_ulen ulen c = reading (byte_of ulen) c (fails_with username_failed) after_username

abbrev pub after_version : List ℕ → Conn → Served (List ℕ)
after_version version c =
    if not (byte_of version == 1)
    then (c, err unsupported_auth_version)
    else reading 1 c (fails_with username_length_failed) after_ulen

unfoldable pub authenticate_password : Conn → Served (List ℕ)
unfolding write_conn
authenticate_password c = reading 1 c (fails_with auth_version_failed) after_version

-- The method that the server selects among those of the client.
abbrev pub with_methods : List ℕ → Conn → Served (List ℕ)
with_methods methods c =
    if elem 2 methods
    then writing (5 ∷ 2 ∷ []) c authenticate_password
    else if elem 0 methods
    then writing (5 ∷ 0 ∷ []) c (λ c'. (c', ok []))
    else writing (5 ∷ 255 ∷ []) c (fails_with no_acceptable_methods)

-- The username, empty without a password.
abbrev pub after_greeting : List ℕ → Conn → Served (List ℕ)
after_greeting header c =
    if not (byte_of header == 5)
    then (c, err unsupported_version)
    else reading (byte_of (drop 1 header)) c (fails_with methods_failed) with_methods

unfoldable pub handshake : Conn → Served (List ℕ)
unfolding authenticate_password
handshake c = reading 2 c (fails_with header_failed) after_greeting

-- The address a reply is bound to: nil, one whose text has no host and port, or a host, IPv4, IPv6 or
-- neither, with a port.
pub data Bind : Type 0 where
  no_bind unsplit : Bind
  bound : Option (List ℕ) → ℕ → Bind

-- The address type and the bytes of an IP.
abbrev pub ip_bytes : Option (List ℕ) → List ℕ
ip_bytes none = 1 ∷ 0 ∷ 0 ∷ 0 ∷ 0 ∷ []
ip_bytes (some ip) = elim (to4 ip) [ none ↦ 4 ∷ ip | some v4 ↦ 1 ∷ v4 ]

unfoldable pub reply_bytes : ℕ → Bind → List ℕ
unfolding to4
reply_bytes status no_bind = 5 ∷ status ∷ 0 ∷ 1 ∷ 0 ∷ 0 ∷ 0 ∷ 0 ∷ 0 ∷ 0 ∷ []
reply_bytes status unsplit = 5 ∷ status ∷ 0 ∷ 1 ∷ 0 ∷ 0 ∷ 0 ∷ 0 ∷ 0 ∷ 0 ∷ []
reply_bytes status (bound ip port) = 5 ∷ status ∷ 0 ∷ (ip_bytes ip ++ be16 port)

-- The callers ignore an error of the write.
unfoldable pub send_reply : ℕ → Bind → Conn → Conn
unfolding reply_bytes write_conn
send_reply status bind c = (write_conn (reply_bytes status bind) c).0

abbrev pub replies_with : {A : Type 0} → ℕ → SocksError → Conn → Served A
replies_with status e c = (send_reply status no_bind c, err e)

pub record RequestInfo : Type 0 where
  pub cmd : ℕ
  pub target_addr : List ℕ

abbrev pub cmd_connect : ℕ
cmd_connect = 1

abbrev pub cmd_resolve : ℕ
cmd_resolve = 240

abbrev pub cmd_resolve_ptr : ℕ
cmd_resolve_ptr = 241

abbrev pub reply_general_failure : ℕ
reply_general_failure = 1

abbrev pub reply_command_not_supported : ℕ
reply_command_not_supported = 7

abbrev pub reply_address_not_supported : ℕ
reply_address_not_supported = 8

-- The error of the command, where it is refused.
unfoldable pub refused_command : Bool → ℕ → Option SocksError
refused_command dns_enabled cmd =
    if cmd == cmd_connect
    then none
    else if cmd == cmd_resolve || cmd == cmd_resolve_ptr
    then if dns_enabled then none else some dns_disabled
    else if cmd == 2 || cmd == 3
    then some unsupported_command
    else some unknown_command

unfoldable pub target_of : ℕ → List ℕ → ℕ → List ℕ
target_of cmd addr port =
    if cmd == cmd_resolve || cmd == cmd_resolve_ptr then addr else addr ++ (58 ∷ decimal 5 port)

abbrev pub refuse_address : Conn → Served RequestInfo
refuse_address = replies_with reply_general_failure address_failed

abbrev pub read_domain : (List ℕ → Conn → Served RequestInfo) → List ℕ → Conn → Served RequestInfo
read_domain k n c = reading (byte_of n) c refuse_address k

module _ (ip_text : List ℕ → List ℕ) where
  -- `readRequest` from the address on.
  unfoldable pub read_address : ℕ → Conn → (List ℕ → Conn → Served RequestInfo) → Served RequestInfo
  read_address kind c k =
      if kind == 1
      then reading 4 c refuse_address (λ ip c'. k (ip_text ip) c')
      else if kind == 3
      then reading 1 c refuse_address (read_domain k)
      else if kind == 4
      then reading 16 c refuse_address (λ ip c'. k (ip_text ip) c')
      else replies_with reply_address_not_supported unsupported_address c

  abbrev pub read_port : ℕ → List ℕ → Conn → Served RequestInfo
  read_port cmd addr c = reading 2 c (replies_with reply_general_failure port_failed) (λ port c'.
      (c', ok (record { cmd = cmd; target_addr = target_of cmd addr (uint16_of port) })))

  abbrev pub after_header : Bool → List ℕ → Conn → Served RequestInfo
  after_header dns_enabled header c =
      let cmd = byte_of (drop 1 header) in
      if not (byte_of header == 5)
      then replies_with reply_general_failure unsupported_version c
      else elim (refused_command dns_enabled cmd) [
        | some e ↦ replies_with reply_command_not_supported e c
        | none ↦ read_address (byte_of (drop 3 header)) c (read_port cmd)
      ]

  unfoldable pub read_request : Bool → Conn → Served RequestInfo
  unfolding send_reply refused_command target_of read_address
  read_request dns_enabled c = reading 4 c (fails_with header_failed) (after_header dns_enabled)

-- `sendDNSReply` and `sendDNSReplyHostname`
unfoldable pub dns_reply_bytes : ℕ → List (List ℕ) → ℕ → List ℕ
unfolding to4
dns_reply_bytes status [] ttl = 5 ∷ status ∷ 0 ∷ 1 ∷ 0 ∷ 0 ∷ 0 ∷ 0 ∷ 0 ∷ 0 ∷ 0 ∷ 0 ∷ []
dns_reply_bytes status (ip ∷ ips) ttl =
    if status == 0
    then 5 ∷ status ∷ 0 ∷ (ip_bytes (some ip) ++ be32 ttl)
    else 5 ∷ status ∷ 0 ∷ 1 ∷ 0 ∷ 0 ∷ 0 ∷ 0 ∷ 0 ∷ 0 ∷ 0 ∷ 0 ∷ []

unfoldable pub dns_hostname_bytes : ℕ → List ℕ → ℕ → List ℕ
dns_hostname_bytes status [] ttl = 5 ∷ status ∷ 0 ∷ 3 ∷ 0 ∷ 0 ∷ 0 ∷ 0 ∷ 0 ∷ []
dns_hostname_bytes status (b ∷ bs) ttl =
    if not (status == 0)
    then 5 ∷ status ∷ 0 ∷ 3 ∷ 0 ∷ 0 ∷ 0 ∷ 0 ∷ 0 ∷ []
    else if ltb 255 (length (b ∷ bs))
    then 5 ∷ reply_general_failure ∷ 0 ∷ 3 ∷ 0 ∷ 0 ∷ 0 ∷ 0 ∷ 0 ∷ []
    else 5 ∷ status ∷ 0 ∷ 3 ∷ length (b ∷ bs) ∷ ((b ∷ bs) ++ be32 ttl)
