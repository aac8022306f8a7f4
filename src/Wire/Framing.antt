-- ===== src/Wire/Framing.antt =====
-- A message that is sent is received, in however many pieces OpenSSL carries its bytes.
use torrent_based_file_shari.Common.{
  ℕ, ◌^◌, ◌%◌, ltb, ◌==◌, ◌<◌, ◌≡◌, refl, sym, ap, ◌∙◌, Bool, true, false, Option, none, some, [],
  ◌∷◌, ◌++◌, append-nil, append_assoc, arith, if◌then◌else◌, length, length-append, take, drop,
  Text, Bool-cases, inl, inr,
}
use torrent_based_file_shari.Wire.Loops.{
  IsReliable, write_all_lem, read_all_lem, take-all, drop-all,
}
use torrent_based_file_shari.Wire.{
  max_msg_size, be32, of_be32, write_all, tls_send_msg, or_blank, recv_body, tls_recv_msg,
}

of_be32-be32 : (n : ℕ) → n < 2 ^ 32 → of_be32 (be32 n) ≡ n
unfolding be32 of_be32
of_be32-be32 n h = omega arith

module _ {S : Type 0} (ssl_write : Text → S → Option ℕ × S) (ssl_read : ℕ → S → Option Text × S)
    (carried : S → Text) (reliable : IsReliable ssl_write ssl_read carried) where
  body-step :
      (text : Text) (s : S)
      → length text < 2 ^ 31
      → (s' : S) × ((if ltb 0 (length text)
            then write_all ssl_write ssl_read (length text) text s
            else (true, s))
          ≡ (true, s'))
        × (carried s' ≡ carried s ++ text)
  body-step text s fits = elim (Bool-cases (ltb 0 (length text))) [
    | inl some_bytes ↦
        let (s', e, c) =
          write_all_lem ssl_write ssl_read carried reliable (length text) text s (omega arith)
            fits in
        (s', rw some_bytes e, c)
    | inr no_bytes ↦ (
      s,
      rw no_bytes refl,
      sym (ap (λ t. carried s ++ t) (blank text no_bytes) ∙ append-nil (carried s)),
    )
  ]
    where
      blank : (t : Text) → ltb 0 (length t) ≡ false → t ≡ []
      blank [] h = refl
      blank (c ∷ t) h = absurd (ground arith)

  -- What `TLSSendMsg` puts on the connection.
  tls_send_msg_lem :
      (text : Text) (s : S)
      → length text < 2 ^ 31
      → (s' : S) × (tls_send_msg ssl_write ssl_read text s ≡ (true, s'))
        × (carried s' ≡ carried s ++ (be32 (length text) ++ text))
  unfolding tls_send_msg be32
  tls_send_msg_lem text s h =
      let n = length text % 2 ^ 32 in
      let (s1, e1, c1) =
        write_all_lem ssl_write ssl_read carried reliable 4 (be32 n) s (omega arith)
          (omega arith) in
      let (s2, e2, c2) = body-step text s1 h in
      (
        s2,
        ap
              (λ (p : Bool × S).
                let (ok, s') = p in
                elim ok [
                  | false ↦ (false, s')
                  | true ↦
                      if ltb 0 (length text)
                      then write_all ssl_write ssl_read (length text) text s'
                      else (true, s')
                ])
              e1
            ∙ e2,
        c2
            ∙ ap (λ x. x ++ text) c1
            ∙ append_assoc (carried s) (be32 n) text
            ∙ ap (λ m. carried s ++ (be32 m ++ text)) (omega arith),
      )

  recv_body_lem :
      (text : Text) (s : S)
      → carried s ≡ text
      → (s' : S) × (recv_body ssl_write ssl_read (length text) s
          ≡ ((if ltb max_msg_size (length text) then [] else text), s'))
        × (carried s' ≡ (if ltb max_msg_size (length text) then text else []))
  unfolding recv_body
  recv_body_lem text s c = elim (Bool-cases (ltb max_msg_size (length text))) [
    | inl long ↦ (s, rw long refl, rw long c)
    | inr short ↦ elim (Bool-cases (length text == 0)) [
      | inl nothing ↦ (
        s,
        rw (short, nothing) (ap (λ t. (t, s)) (sym (blank text nothing))),
        rw short (c ∙ blank text nothing),
      )
      | inr some_bytes ↦
          let (s', e, c') =
            read_all_lem ssl_write ssl_read carried reliable (length text) (length text) s
              (omega arith) (ground (arith, short)) (omega (arith, ap length c)) in
          (
            s',
            rw (short, some_bytes)
                (ap (or_blank ssl_write ssl_read) e
                  ∙ ap (λ t. (t, s'))
                      (ap (take (length text)) c ∙ take-all (length text) text refl)),
            rw short (c' ∙ ap (drop (length text)) c ∙ drop-all (length text) text refl),
          )
    ]
  ]
    where
      blank : (t : Text) → (length t == 0) ≡ true → t ≡ []
      blank [] h = refl
      blank (c ∷ t) h = absurd (ground arith)

  -- On a connection that carries nothing and stays up (`IsReliable`), a message of fewer than 2^31 bytes, as
  -- many as the `int` of `SSL_write` counts, is sent with success, and is received whole if it has no
  -- more than 16 MiB; a longer one is received as the empty message, and its bytes stay.
  pub tls_recv_msg-tls_send_msg :
      (text : Text) (s : S)
      → carried s ≡ []
      → length text < 2 ^ 31
      → (s1 : S) × (s2 : S) × (tls_send_msg ssl_write ssl_read text s ≡ (true, s1))
        × (tls_recv_msg ssl_write ssl_read s1
            ≡ ((if ltb max_msg_size (length text) then [] else text), s2))
        × (carried s2 ≡ (if ltb max_msg_size (length text) then text else []))
  unfolding tls_recv_msg be32
  tls_recv_msg-tls_send_msg text s quiet h =
      let (s1, e1, c1) = tls_send_msg_lem text s h in
      let bytes : carried s1 ≡ be32 (length text) ++ text =
        c1 ∙ ap (λ x. x ++ (be32 (length text) ++ text)) quiet in
      let (s2, e2, c2) =
        read_all_lem ssl_write ssl_read carried reliable 4 4 s1 (omega arith) (omega arith)
          (omega (arith, ap length bytes, length-append (be32 (length text)) text)) in
      let (s3, e3, c3) = recv_body_lem text s2 (c2 ∙ ap (drop 4) bytes) in
      (
        s1,
        s3,
        e1,
        ap
              (λ (p : Option Text × S).
                let (header, s') = p in
                elim header [
                  | none ↦ ([], s')
                  | some b ↦ recv_body ssl_write ssl_read (of_be32 b) s'
                ])
              (e2 ∙ ap (λ x. (some (take 4 x), s2)) bytes)
            ∙ ap (λ m. recv_body ssl_write ssl_read m s2) (of_be32-be32 (length text) (omega arith))
            ∙ e3,
        c3,
      )
