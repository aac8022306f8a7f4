-- ===== src/Wire.antt =====
-- Messages over TLS: `SSLWriteAll`, `SSLReadAll`, `TLSSendMsg`, `TLSRecvMsg` of common/tls.cpp.
-- OpenSSL's connection is a parameter: its state, `SSL_write` (how many bytes it took, `none` for a
-- result that is not positive) and `SSL_read` (the bytes it gave, `none` likewise).
pub mod Loops
pub mod Framing
pub mod Raw
pub mod Contexts
mod Tests
use torrent_based_file_shari.Common.{
  ℕ, zero, suc, ◌+◌, ◌*◌, ◌^◌, ◌-◌, ◌/◌, ◌%◌, ltb, ◌==◌, Bool, true, false, Option, none, some,
  List, [], ◌∷◌, ◌++◌, if◌then◌else◌, length, take, drop, Text,
}

abbrev pub max_msg_size : ℕ
max_msg_size = 16 * 1024 * 1024

-- The four bytes of `htonl((uint32_t)n)` in memory, and `ntohl` of four bytes.
unfoldable pub be32 : ℕ → Text
be32 n = (n / 2 ^ 24) % 256 ∷ (n / 2 ^ 16) % 256 ∷ (n / 2 ^ 8) % 256 ∷ n % 256 ∷ []

unfoldable pub of_be32 : Text → ℕ
of_be32 (a ∷ b ∷ c ∷ d ∷ _) = a * 2 ^ 24 + b * 2 ^ 16 + c * 2 ^ 8 + d
of_be32 _ = 0

module _ {S : Type 0} (ssl_write : Text → S → Option ℕ × S)
    (ssl_read : ℕ → S → Option Text × S) where
  -- `SSL_write(ssl,data+sent,len-sent)`: the length becomes an `int`, and a negative one is refused.
  unfoldable pub write_rest : Text → S → Option ℕ × S
  write_rest t s =
      let n = length t % 2 ^ 32 in if ltb n (2 ^ 31) then ssl_write (take n t) s else (none, s)

  -- The loop of `SSLWriteAll`; the first argument bounds its rounds.
  unfoldable pub write_all : ℕ → Text → S → Bool × S
  write_all rounds [] s = (true, s)
  write_all zero (c ∷ cs) s = (false, s)
  write_all (suc rounds) (c ∷ cs) s =
      let (taken, s') = write_rest (c ∷ cs) s in
      elim taken [ none ↦ (false, s') | some n ↦ write_all rounds (drop n (c ∷ cs)) s' ]

  abbrev pub put_before : Text → Option Text × S → Option Text × S
  put_before t (none, s) = (none, s)
  put_before t (some u, s) = (some (t ++ u), s)

  -- The loop of `SSLReadAll`, of 4 or at most `max_msg_size` bytes, which are an `int`.
  unfoldable pub read_all : ℕ → ℕ → S → Option Text × S
  read_all rounds zero s = (some [], s)
  read_all zero (suc n) s = (none, s)
  read_all (suc rounds) (suc n) s =
      let (given, s') = ssl_read (suc n) s in
      elim given [
        | none ↦ (none, s')
        | some t ↦ put_before t (read_all rounds (suc n - length t) s')
      ]

  unfoldable pub tls_send_msg : Text → S → Bool × S
  tls_send_msg text s =
      let (ok, s') = write_all 4 (be32 (length text % 2 ^ 32)) s in
      elim ok [
        | false ↦ (false, s')
        | true ↦ if ltb 0 (length text) then write_all (length text) text s' else (true, s')
      ]

  abbrev pub or_blank : Option Text × S → Text × S
  or_blank (none, s) = ([], s)
  or_blank (some t, s) = (t, s)

  unfoldable pub recv_body : ℕ → S → Text × S
  recv_body n s =
      if ltb max_msg_size n then ([], s) else if n == 0 then ([], s) else or_blank (read_all n n s)

  unfoldable pub tls_recv_msg : S → Text × S
  tls_recv_msg s =
      let (header, s') = read_all 4 4 s in
      elim header [ none ↦ ([], s') | some h ↦ recv_body (of_be32 h) s' ]

  unfoldable pub tls_send_raw : Text → S → Bool × S
  tls_send_raw text s = write_all (length text) text s

  -- One `SSL_read` of at most `maxlen` bytes.
  unfoldable pub tls_recv_raw : ℕ → S → Text × S
  tls_recv_raw maxlen s = or_blank (ssl_read maxlen s)
