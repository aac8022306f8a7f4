-- ===== src/Wire/Raw.antt =====
-- `TLSSendRaw` and `TLSRecvRaw` of common/tls.cpp: bytes with no length in front of them.
use torrent_based_file_shari.Common.{
  ◌≡◌, ◌≢◌, refl, sym, ap, ◌∙◌, ℕ, zero, suc, ◌^◌, ◌<◌, ◌≤◌, arith, true, Option, [], ◌∷◌, ◌++◌,
  nil_of_length, List-cases, inl, inr, length, length-append, Text,
}
use torrent_based_file_shari.Wire.{tls_send_raw, tls_recv_raw}
use torrent_based_file_shari.Wire.Loops.{IsReliable, write_all_lem}

module _ {S : Type 0} (ssl_write : Text → S → Option ℕ × S) (ssl_read : ℕ → S → Option Text × S)
    (carried : S → Text) (reliable : IsReliable ssl_write ssl_read carried) where
  -- What `TLSRecvRaw` gives, one call after the other with `sum` for the bytes so far, until no byte is
  -- left; the fuel bounds the calls.
  unfoldable pub recv_raw_all : ℕ → ℕ → S → Text
  recv_raw_all zero maxlen s = []
  recv_raw_all (suc calls) maxlen s = elim (carried s) [
    | [] ↦ []
    | c ∷ cs ↦
        let (got, s') = tls_recv_raw ssl_write ssl_read maxlen s in
        got ++ recv_raw_all calls maxlen s'
  ]

  -- A read of waiting bytes.
  tls_recv_raw_lem :
      (maxlen : ℕ) (s : S)
      → 1 ≤ maxlen
      → maxlen < 2 ^ 31
      → carried s ≢ []
      → (t : Text) × (s' : S) × (tls_recv_raw ssl_write ssl_read maxlen s ≡ (t, s'))
        × (1 ≤ length t)
        × (length t ≤ maxlen)
        × (carried s ≡ t ++ carried s')
  unfolding tls_recv_raw
  tls_recv_raw_lem maxlen s pos_ int_ waiting =
      let (t, s', e, least, most, c) = reliable.reads maxlen s pos_ int_ waiting in
      (t, s', rw e refl, least, most, c)

  recv_raw_all_lem :
      (calls maxlen : ℕ) (s : S)
      → 1 ≤ maxlen
      → maxlen < 2 ^ 31
      → length (carried s) ≤ calls
      → recv_raw_all calls maxlen s ≡ carried s
  unfolding recv_raw_all
  recv_raw_all_lem zero maxlen s pos_ int_ fits = sym (nil_of_length (carried s) fits)
  recv_raw_all_lem (suc calls) maxlen s pos_ int_ fits = elim (List-cases (carried s)) [
    | inl none_left ↦ rw (none_left, recv_raw_all) refl
    | inr (c, cs, waiting) ↦
        let (t, s1, e, least, most, split_) =
          tls_recv_raw_lem maxlen s pos_ int_
            (λ empty_. let bad : c ∷ cs ≡ [] = sym waiting ∙ empty_ in cc) in
        let fewer : length (carried s1) ≤ calls =
          omega (arith, ap length split_, length-append t (carried s1)) in
        rw (recv_raw_all, waiting, e, recv_raw_all_lem calls maxlen s1 pos_ int_ fewer)
          (sym (sym waiting ∙ split_))
  ]

  -- On a reliable connection that carries nothing, for fewer than 2^31 bytes, `TLSSendRaw` ends with success, and what `TLSRecvRaw` then
  -- gives, call after call with room for at least one byte, is the text that was sent, after at most
  -- one call for each byte.
  pub tls_recv_raw-tls_send_raw :
      (text : Text) (maxlen : ℕ) (s : S)
      → carried s ≡ []
      → length text < 2 ^ 31
      → 1 ≤ maxlen
      → maxlen < 2 ^ 31
      → (s' : S) × (tls_send_raw ssl_write ssl_read text s ≡ (true, s'))
        × (recv_raw_all (length text) maxlen s' ≡ text)
  unfolding tls_send_raw
  tls_recv_raw-tls_send_raw text maxlen s quiet fits pos_ int_ =
      let (s', e, c) =
        write_all_lem ssl_write ssl_read carried reliable (length text) text s (omega arith) fits in
      let all : carried s' ≡ text = c ∙ ap (λ x. x ++ text) quiet in
      (
        s',
        e,
        recv_raw_all_lem (length text) maxlen s' pos_ int_ (omega (arith, ap length all)) ∙ all,
      )
