-- ===== src/Socks/Greeting.antt =====
-- The greeting of a client, answered.
use go_tor.Prelude.{
  ℕ, suc, ◌-◌, ◌≡◌, refl, ap, ◌∙◌, true, false, List, [], ◌∷◌, ◌++◌, append_assoc, none, some, ok,
  err, ◌==◌, length, arith,
}
use go_tor.Prelude.Subset.{elem}
use go_tor.Cell.Io.{read_full_append}
use go_tor.Socks.{
  Conn, Served, no_acceptable_methods, reading, writing, write_conn, authenticate_password,
  with_methods, handshake, fails_with, after_password, after_plen, after_username, after_ulen,
  after_version, after_greeting, auth_version_failed, username_length_failed, username_failed,
  password_length_failed, password_failed, header_failed, methods_failed,
}

abbrev pub conn : List ℕ → List ℕ → ℕ → Conn
conn input output writes = record { input = input; output = output; writes = writes }

-- A read of what the input starts with.
pub reading-exact :
    {A : Type 0} (n : ℕ) (p rest output : List ℕ) (writes : ℕ) (fails : Conn → Served A)
    (k : List ℕ → Conn → Served A)
    → length p ≡ n
    → reading n (conn (p ++ rest) output writes) fails k ≡ k p (conn rest output writes)
reading-exact n p rest output writes fails k h =
    ap
      (λ o. elim o [
        | none ↦ fails (conn [] output writes)
        | some (bytes, left) ↦ k bytes (conn left output writes)
      ])
      (read_full_append n p rest h)

pub writing-exact :
    {A : Type 0} (p input output : List ℕ) (w : ℕ) (k : Conn → Served A)
    → writing p (conn input output (suc w)) k ≡ k (conn input (output ++ p) w)
unfolding write_conn
writing-exact p input output w k =
    let e : (suc w == 0) ≡ false = ground arith in
    let f : suc w - 1 ≡ w = omega arith in rw (e, f) refl

-- Username and password as RFC 1929 writes them, and the methods as RFC 1928 does.
abbrev pub auth_bytes : List ℕ → List ℕ → List ℕ
auth_bytes username password = 1 ∷ length username ∷ (username ++ (length password ∷ password))

abbrev pub greeting_bytes : List ℕ → List ℕ
greeting_bytes methods = 5 ∷ length methods ∷ methods

authenticate-exact :
    (username password rest output : List ℕ) (w : ℕ)
    → authenticate_password (conn (auth_bytes username password ++ rest) output (suc w))
      ≡ (conn rest (output ++ (1 ∷ 0 ∷ [])) w, ok username)
unfolding authenticate_password
authenticate-exact username password rest output w =
    let left = length password ∷ (password ++ rest) in
    let whole : (username ++ (length password ∷ password)) ++ rest ≡ username ++ left =
      append_assoc username (length password ∷ password) rest in
    ap (λ t. authenticate_password (conn (1 ∷ length username ∷ t) output (suc w))) whole
    ∙ reading-exact 1 (1 ∷ []) (length username ∷ (username ++ left)) output (suc w)
        (fails_with auth_version_failed) after_version refl
    ∙ reading-exact 1 (length username ∷ []) (username ++ left) output (suc w)
        (fails_with username_length_failed) after_ulen refl
    ∙ reading-exact (length username) username left output (suc w) (fails_with username_failed)
        after_username refl
    ∙ reading-exact 1 (length password ∷ []) (password ++ rest) output (suc w)
        (fails_with password_length_failed) (after_plen username) refl
    ∙ reading-exact (length password) password rest output (suc w) (fails_with password_failed)
        (after_password username) refl
    ∙ writing-exact (1 ∷ 0 ∷ []) rest output w (λ c. (c, ok username))

handshake-methods :
    (methods more output : List ℕ) (w : ℕ)
    → handshake (conn (greeting_bytes methods ++ more) output w)
      ≡ with_methods methods (conn more output w)
unfolding handshake
handshake-methods methods more output w =
    reading-exact 2 (5 ∷ length methods ∷ []) (methods ++ more) output w (fails_with header_failed)
      after_greeting refl
    ∙ reading-exact (length methods) methods more output w (fails_with methods_failed) with_methods
        refl

pick_password :
    (methods : List ℕ) (c : Conn)
    → elem 2 methods ≡ true
    → with_methods methods c ≡ writing (5 ∷ 2 ∷ []) c authenticate_password
pick_password methods c p = rw p refl

pick_none :
    (methods : List ℕ) (c : Conn)
    → elem 2 methods ≡ false
    → elem 0 methods ≡ true
    → with_methods methods c ≡ writing (5 ∷ 0 ∷ []) c (λ c'. (c', ok []))
pick_none methods c p q = rw (p, q) refl

pick_refused :
    (methods : List ℕ) (c : Conn)
    → elem 2 methods ≡ false
    → elem 0 methods ≡ false
    → with_methods methods c ≡ writing (5 ∷ 255 ∷ []) c (λ c'. (c', err no_acceptable_methods))
pick_refused methods c p q = rw (p, q) refl

-- A greeting with the password method, followed by username and password, is answered with that method
-- and success, and yields the username; without it, one that has the method for no authentication is
-- answered with that and yields no username; any other is refused. What follows is left unread.
pub greeting_exact :
    (methods username password rest output : List ℕ) (w : ℕ)
    → (elem 2 methods ≡ true
        → handshake (
            conn
              (greeting_bytes methods ++ (auth_bytes username password ++ rest))
              output
              (suc (suc w)))
          ≡ (conn rest (output ++ (5 ∷ 2 ∷ 1 ∷ 0 ∷ [])) w, ok username))
      × (elem 2 methods ≡ false
          → elem 0 methods ≡ true
          → handshake (conn (greeting_bytes methods ++ rest) output (suc w))
            ≡ (conn rest (output ++ (5 ∷ 0 ∷ [])) w, ok []))
      × (elem 2 methods ≡ false
          → elem 0 methods ≡ false
          → handshake (conn (greeting_bytes methods ++ rest) output (suc w))
            ≡ (conn rest (output ++ (5 ∷ 255 ∷ [])) w, err no_acceptable_methods))
greeting_exact methods username password rest output w = (
  λ p.
      handshake-methods methods _ output (suc (suc w))
      ∙ pick_password methods _ p
      ∙ writing-exact (5 ∷ 2 ∷ []) _ output (suc w) authenticate_password
      ∙ authenticate-exact username password rest (output ++ (5 ∷ 2 ∷ [])) w
      ∙ ap (λ t. (conn rest t w, ok username)) (append_assoc output _ _),
  λ p q.
      handshake-methods methods rest output (suc w)
      ∙ pick_none methods _ p q
      ∙ writing-exact (5 ∷ 0 ∷ []) rest output w (λ c. (c, ok [])),
  λ p q.
      handshake-methods methods rest output (suc w)
      ∙ pick_refused methods _ p q
      ∙ writing-exact (5 ∷ 255 ∷ []) rest output w (λ c. (c, err no_acceptable_methods)),
)
