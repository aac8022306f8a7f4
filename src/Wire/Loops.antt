-- ===== src/Wire/Loops.antt =====
-- The loops of `SSLWriteAll` and `SSLReadAll` end, and carry the bytes.
use torrent_based_file_shari.Common.{
  ℕ, zero, suc, ◌-◌, ◌^◌, ◌%◌, ◌<◌, ltb, ◌≤◌, ◌≡◌, ◌≢◌, refl, sym, ap, ◌∙◌, true, false, Option,
  none, some, [], ◌∷◌, ◌++◌, append-nil, append_assoc, arith, length, length-append, length-drop,
  take-append-drop, take, drop, Text,
}
use torrent_based_file_shari.Wire.{write_rest, write_all, put_before, read_all}

pub take-append : (n : ℕ) (t u : Text) → length t ≤ n → take n (t ++ u) ≡ t ++ take (n - length t) u
take-append n [] u h = ap (λ m. take m u) (omega arith)
take-append zero (c ∷ t) u h = absurd (omega arith)
take-append (suc n) (c ∷ t) u h =
    ap (λ r. c ∷ r) (take-append n t u (omega arith) ∙ ap (λ m. t ++ take m u) (omega arith))

pub drop-append : (n : ℕ) (t u : Text) → length t ≤ n → drop n (t ++ u) ≡ drop (n - length t) u
drop-append n [] u h = ap (λ m. drop m u) (omega arith)
drop-append zero (c ∷ t) u h = absurd (omega arith)
drop-append (suc n) (c ∷ t) u h = drop-append n t u (omega arith) ∙ ap (λ m. drop m u) (omega arith)

pub take-all : (n : ℕ) (t : Text) → n ≡ length t → take n t ≡ t
take-all zero [] h = refl
take-all zero (c ∷ t) h = absurd (omega arith)
take-all (suc n) [] h = refl
take-all (suc n) (c ∷ t) h = ap (λ r. c ∷ r) (take-all n t (omega arith))

pub drop-all : (n : ℕ) (t : Text) → n ≡ length t → drop n t ≡ []
drop-all zero [] h = refl
drop-all zero (c ∷ t) h = absurd (omega arith)
drop-all (suc n) [] h = refl
drop-all (suc n) (c ∷ t) h = drop-all n t (omega arith)

-- What OpenSSL documents of a connection that stays up, with `carried` for the bytes that are
-- written and not yet read, and lengths that are a positive `int`: a write takes some of the bytes it is
-- given, and a read of at least one byte, while there are bytes, gives some of them, no more than asked for.
pub record IsReliable {S : Type 0} (ssl_write : Text → S → Option ℕ × S)
    (ssl_read : ℕ → S → Option Text × S) (carried : S → Text) : Type 0 where
  pub writes :
      (t : Text) (s : S)
      → t ≢ []
      → length t < 2 ^ 31
      → (k : ℕ) × (s' : S) × (ssl_write t s ≡ (some k, s'))
        × (1 ≤ k)
        × (carried s' ≡ carried s ++ take k t)
  pub reads :
      (n : ℕ) (s : S)
      → 1 ≤ n
      → n < 2 ^ 31
      → carried s ≢ []
      → (t : Text) × (s' : S) × (ssl_read n s ≡ (some t, s'))
        × (1 ≤ length t)
        × (length t ≤ n)
        × (carried s ≡ t ++ carried s')

module _ {S : Type 0} (ssl_write : Text → S → Option ℕ × S) (ssl_read : ℕ → S → Option Text × S)
    (carried : S → Text) (reliable : IsReliable ssl_write ssl_read carried) where
  -- Fewer than 2^31 bytes are passed to `SSL_write` as they are.
  write_rest-all :
      (t : Text) (s : S) → length t < 2 ^ 31 → write_rest ssl_write ssl_read t s ≡ ssl_write t s
  unfolding write_rest
  write_rest-all t s fits =
      let n = length t % 2 ^ 32 in
      let same : n ≡ length t = omega (arith, fits) in
      let small : ltb n (2 ^ 31) ≡ true = ground (arith, same, fits) in
      rw small (ap (λ u. ssl_write u s) (take-all n t same))

  write_all-step :
      (rounds k c : ℕ) (cs : Text) (s s' : S)
      → write_rest ssl_write ssl_read (c ∷ cs) s ≡ (some k, s')
      → write_all ssl_write ssl_read (suc rounds) (c ∷ cs) s
        ≡ write_all ssl_write ssl_read rounds (drop k (c ∷ cs)) s'
  unfolding write_all
  write_all-step rounds k c cs s s' e =
      ap
        (λ (p : Option ℕ × S).
          let (taken, s') = p in
          elim taken [
            | none ↦ (false, s')
            | some n ↦ write_all ssl_write ssl_read rounds (drop n (c ∷ cs)) s'
          ])
        e

  read_all-step :
      (rounds n : ℕ) (t : Text) (s s' : S)
      → ssl_read (suc n) s ≡ (some t, s')
      → read_all ssl_write ssl_read (suc rounds) (suc n) s
        ≡ put_before ssl_write ssl_read t (read_all ssl_write ssl_read rounds (suc n - length t) s')
  unfolding read_all
  read_all-step rounds n t s s' e =
      ap
        (λ (p : Option Text × S).
          let (given, s') = p in
          elim given [
            | none ↦ (none, s')
            | some t ↦
                put_before ssl_write ssl_read t
                  (read_all ssl_write ssl_read rounds (suc n - length t) s')
          ])
        e

  pub write_all_lem :
      (rounds : ℕ) (t : Text) (s : S)
      → length t ≤ rounds
      → length t < 2 ^ 31
      → (s' : S) × (write_all ssl_write ssl_read rounds t s ≡ (true, s'))
        × (carried s' ≡ carried s ++ t)
  unfolding write_all
  write_all_lem rounds [] s h fits = (s, refl, sym (append-nil (carried s)))
  write_all_lem zero (c ∷ cs) s h fits = absurd (omega arith)
  write_all_lem (suc rounds) (c ∷ cs) s h fits =
      let (k, s1, e, pos, c1) = reliable.writes (c ∷ cs) s (λ e. cc) fits in
      let (s2, e2, c2) =
        write_all_lem rounds (drop k (c ∷ cs)) s1 (omega (arith, length-drop k (c ∷ cs)))
          (omega (arith, length-drop k (c ∷ cs))) in
      (
        s2,
        write_all-step rounds k c cs s s1 (write_rest-all (c ∷ cs) s fits ∙ e) ∙ e2,
        c2
            ∙ ap (λ x. x ++ drop k (c ∷ cs)) c1
            ∙ append_assoc (carried s) (take k (c ∷ cs)) _
            ∙ ap (λ x. carried s ++ x) (take-append-drop k (c ∷ cs)),
      )

  pub read_all_lem :
      (rounds n : ℕ) (s : S)
      → n ≤ rounds
      → n < 2 ^ 31
      → n ≤ length (carried s)
      → (s' : S) × (read_all ssl_write ssl_read rounds n s ≡ (some (take n (carried s)), s'))
        × (carried s' ≡ drop n (carried s))
  unfolding read_all
  read_all_lem rounds zero s h fits l = (s, refl, refl)
  read_all_lem zero (suc n) s h fits l = absurd (omega arith)
  read_all_lem (suc rounds) (suc n) s h fits l =
      let (t, s1, e, pos, most, c1) =
        reliable.reads (suc n) s (omega arith) fits (λ e. omega (arith, ap length e)) in
      let m = suc n - length t in
      let (s2, e2, c2) =
        read_all_lem rounds m s1 (omega arith) (omega arith)
          (omega (arith, ap length c1, length-append t (carried s1))) in
      (
        s2,
        read_all-step rounds n t s s1 e
            ∙ ap (put_before ssl_write ssl_read t) e2
            ∙ ap (λ x. (some x, s2))
                (sym (take-append (suc n) t (carried s1) most) ∙ ap (take (suc n)) (sym c1)),
        c2 ∙ sym (drop-append (suc n) t (carried s1) most) ∙ ap (drop (suc n)) (sym c1),
      )
