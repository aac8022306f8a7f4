-- ===== src/Peer/Pieces/Checks.antt =====
-- The check of single pieces against the hash of the whole file.
use torrent_based_file_shari.Common.{
  ℕ, zero, suc, ◌+◌, ◌*◌, ◌^◌, ◌-◌, ltb, ◌≤◌, ◌<◌, ◌≡◌, refl, sym, ap, ◌∙◌, Bool, true, false, none,
  some, List, [], ◌∷◌, ◌++◌, arith, if◌then◌else◌, length, append-nil, length-drop, length-take,
  take, drop, blocks, Text, eq_text, eq_text_refl, eq_of_eq_text,
}
use torrent_based_file_shari.Tracker.Accounts.Hashing.{hex}
use torrent_based_file_shari.Wire.Loops.{take-append, drop-append}
use torrent_based_file_shari.Peer.Pieces.{
  chunk_size, temp_hash, final_hash, get_file_hash, get_file_hash2, get_file_hash_small, match_sha,
}

length-hex : (bs : List ℕ) → length (hex bs) ≡ 2 * length bs
unfolding hex
length-hex [] = refl
length-hex (b ∷ bs) = omega (arith, length-hex bs)

drop_nil : (k : ℕ) → drop {A = ℕ} k [] ≡ []
drop_nil zero = refl
drop_nil (suc k) = refl

pub drop-drop : (n m : ℕ) (t : Text) → drop n (drop m t) ≡ drop (m + n) t
drop-drop n zero t = ap (λ k. drop k t) (omega arith)
drop-drop n (suc m) [] = drop_nil n ∙ sym (drop_nil (suc m + n))
drop-drop n (suc m) (c ∷ t) =
    let shifted : suc (m + n) ≡ suc m + n = omega arith in
    drop-drop n m t ∙ ap (λ k. drop k (c ∷ t)) shifted

length-take_le : (n : ℕ) (t : Text) → length (take n t) ≤ length t
length-take_le zero t = omega arith
length-take_le (suc n) [] = omega arith
length-take_le (suc n) (c ∷ t) = omega (arith, length-take_le n t)

-- The last of three tests, where the first two let the third be the result.
third_test :
    (b c d : Bool) → (if b then (if c then none else some d) else none) ≡ some true → d ≡ true
third_test true false d e = cc
third_test true true d e = cc
third_test false c d e = cc

module _ (sha1 : Text → List ℕ) (digest : (t : Text) → length (sha1 t) ≡ 20) where
  length-temp_hash : (p : Text) → length (temp_hash sha1 p) ≡ 20
  unfolding temp_hash
  length-temp_hash p = length-take 20 (hex (sha1 p)) (omega (arith, length-hex (sha1 p), digest p))

  -- The piece with the number `i`, and all hashes of a file.
  abbrev piece : ℕ → Text → Text
  piece i file = take chunk_size (drop (i * chunk_size) file)

  abbrev hashes : ℕ → Text → Text
  hashes rounds file = final_hash sha1 (blocks rounds chunk_size file)

  first-hash : (h rest : Text) → length h ≡ 20 → take 20 (h ++ rest) ≡ h
  first-hash h rest e =
      let none_left : 20 - length h ≡ 0 = omega arith in
      take-append 20 h rest (omega arith) ∙ ap (λ k. h ++ take k rest) none_left ∙ append-nil h

  next-hash :
      (i : ℕ) (h rest : Text) → length h ≡ 20 → drop (suc i * 20) (h ++ rest) ≡ drop (i * 20) rest
  next-hash i h rest e =
      drop-append (suc i * 20) h rest (omega arith) ∙ ap (λ k. drop k rest) (omega arith)

  next-piece : (i : ℕ) (file : Text) → piece i (drop chunk_size file) ≡ piece (suc i) file
  next-piece i file =
      ap (take chunk_size)
        (drop-drop (i * chunk_size) chunk_size file ∙ ap (λ k. drop k file) (omega arith))

  -- The slice of the whole hash is the hash of the piece.
  hash_slice :
      (rounds i : ℕ) (file : Text)
      → length file ≤ rounds
      → i * chunk_size < length file
      → take 20 (drop (i * 20) (hashes rounds file)) ≡ temp_hash sha1 (piece i file)
  hash_slice rounds i [] h l = absurd (omega arith)
  hash_slice zero i (c ∷ cs) h l = absurd (omega arith)
  hash_slice (suc rounds) zero (c ∷ cs) h l = first-hash _ _ (length-temp_hash _)
  hash_slice (suc rounds) (suc i) (c ∷ cs) h l =
      let file = c ∷ cs in
      ap (take 20) (next-hash i (temp_hash sha1 (take chunk_size file)) _ (length-temp_hash _))
      ∙ hash_slice rounds i (drop chunk_size file) (omega (arith, length-drop chunk_size file))
          (omega (arith, length-drop chunk_size file))
      ∙ ap (temp_hash sha1) (next-piece i file)

  -- There is such a slice for every piece.
  hashes_long :
      (file : Text) (i : ℕ)
      → i * chunk_size < length file
      → i * 20 + 20 ≤ length (hashes (length file) file)
  hashes_long file i l =
      let full = hashes (length file) file in
      omega (
        arith,
        ap length (hash_slice (length file) i file (omega arith) l),
        length-temp_hash (piece i file),
        length-take_le 20 (drop (i * 20) full),
        length-drop (i * 20) full,
      )

  -- Every piece of a file of at most 2^31 bytes passes the check against the file's own hash.
  pub get_file_hash_small-get_file_hash :
      (file : Text) (i : ℕ)
      → length file ≤ 2 ^ 31
      → i * chunk_size < length file
      → get_file_hash_small sha1 file i (get_file_hash sha1 (some file)).0 ≡ some true
  unfolding get_file_hash_small get_file_hash
  get_file_hash_small-get_file_hash file i s l =
      let full = hashes (length file) file in
      let in_range : ltb (i * chunk_size) (2 ^ 31) ≡ true = ground arith in
      let long = hashes_long file i l in
      let no_throw : ltb (length full) (i * 20) ≡ false = ground arith in
      rw (in_range, no_throw, hash_slice (length file) i file (omega arith) l)
        (ap some (eq_text_refl (temp_hash sha1 (piece i file))))

  -- Files of one length whose pieces have the same hashes have the same hashes.
  same_hashes :
      (rounds : ℕ) (file got : Text)
      → length got ≡ length file
      → ((i : ℕ)
          → i * chunk_size < length file
          → temp_hash sha1 (piece i got) ≡ temp_hash sha1 (piece i file))
      → hashes rounds got ≡ hashes rounds file
  same_hashes zero file got e k = refl
  same_hashes (suc rounds) [] [] e k = refl
  same_hashes (suc rounds) [] (g ∷ gs) e k = absurd (omega arith)
  same_hashes (suc rounds) (c ∷ cs) [] e k = absurd (omega arith)
  same_hashes (suc rounds) (c ∷ cs) (g ∷ gs) e k =
      let file = c ∷ cs in
      let got = g ∷ gs in
      let rest =
        same_hashes rounds (drop chunk_size file) (drop chunk_size got)
          (omega (arith, length-drop chunk_size file, length-drop chunk_size got))
          (λ i l.
            ap (temp_hash sha1) (next-piece i got)
            ∙ k (suc i) (omega (arith, length-drop chunk_size file))
            ∙ sym (ap (temp_hash sha1) (next-piece i file))) in
      ap (λ h. h ++ hashes rounds (drop chunk_size got)) (k 0 (omega arith))
      ∙ ap (λ r. temp_hash sha1 (take chunk_size file) ++ r) rest

  -- A download that has the length of the file, and each piece of which passed the check against the
  -- file's hash, passes the check of the whole file.
  pub match_sha-get_file_hash_small :
      (file got : Text)
      → length got ≡ length file
      → ((i : ℕ)
          → i * chunk_size < length file
          → get_file_hash_small sha1 got i (get_file_hash sha1 (some file)).0 ≡ some true)
      → match_sha sha1 (some got) (get_file_hash sha1 (some file)).0 ≡ true
  unfolding get_file_hash_small get_file_hash get_file_hash2 match_sha
  match_sha-get_file_hash_small file got e k =
      let same : hashes (length file) got ≡ hashes (length file) file =
        same_hashes (length file) file got e (λ i l.
          eq_of_eq_text _ _ (third_test _ _ _ (k i l))
          ∙ hash_slice (length file) i file (omega arith) l) in
      ap (λ h. eq_text h (hashes (length file) file)) (ap (λ n. hashes n got) e ∙ same)
      ∙ eq_text_refl (hashes (length file) file)
