-- ===== src/Peer/Download/Arrival.antt =====
-- What one round of `DownloadKernel` leaves in the file when the bytes are those that a seeder of the
-- file sends.
use torrent_based_file_shari.Common.{
  ℕ, zero, suc, ◌+◌, ◌-◌, ◌≤◌, ◌<◌, ◌≡◌, refl, sym, ap, ◌∙◌, inl, inr, Bool, true, false, Option,
  none, some, List, [], ◌∷◌, ◌++◌, append_assoc, arith, ltb, if◌then◌else◌, length, length-append,
  length-drop, take, drop, take-append-drop, lt-length-take, join, get_elem?, Text,
  take-append_self, Bool-cases,
}
use torrent_based_file_shari.Peer.Files.{fwrite_at, within, get_elem?-fwrite_at}
use torrent_based_file_shari.Peer.Pieces.{chunk_size}
use torrent_based_file_shari.Peer.Server.{send_from, small_chunk_size}
use torrent_based_file_shari.Peer.Server.Sending.{send_from_lem}
use torrent_based_file_shari.Peer.Download.{recv_loop}
use torrent_based_file_shari.Peer.Download.Writes.{NonEmpty}

recv_loop-prefix :
    (m : ℕ) (parts : List Text) → (rest : Text) × (join parts ≡ recv_loop m parts ++ rest)
unfolding recv_loop
recv_loop-prefix m [] = ([], refl)
recv_loop-prefix m ([] ∷ ps) = (join ps, refl)
recv_loop-prefix m ((c ∷ cs) ∷ ps) = elim (Bool-cases (ltb 0 m)) [
  | inl room ↦
      let (rest, e) = recv_loop-prefix (m - length (c ∷ cs)) ps in
      rw room (rest, ap (λ t. (c ∷ cs) ++ t) e ∙ sym (append_assoc (c ∷ cs) _ rest))
  | inr full ↦ rw full (join ((c ∷ cs) ∷ ps), refl)
]

recv_loop-long :
    (m : ℕ) (parts : List Text) (k : ℕ)
    → NonEmpty parts
    → k < m
    → k < length (join parts)
    → k < length (recv_loop m parts)
unfolding recv_loop
recv_loop-long m [] k h l j = j
recv_loop-long m ([] ∷ ps) k h l j = absurd (h.0 refl)
recv_loop-long m ((c ∷ cs) ∷ ps) k h l j =
    let t = c ∷ cs in
    let room : ltb 0 m ≡ true = ground arith in
    rw room (elim (Bool-cases (ltb k (length t))) [
      | inl here ↦ ground (arith, length-append t (recv_loop (m - length t) ps))
      | inr later ↦
          let ih =
            recv_loop-long (m - length t) ps (k - length t) h.1 (ground arith)
              (ground (arith, length-append t (join ps))) in
          ground (arith, ih, length-append t (recv_loop (m - length t) ps))
    ])

get_elem?-drop : (p : ℕ) (t : Text) (k : ℕ) → get_elem? (drop p t) k ≡ get_elem? t (p + k)
get_elem?-drop zero t k = ap (get_elem? t) (omega arith)
get_elem?-drop (suc p) [] k = refl
get_elem?-drop (suc p) (c ∷ t) k =
    let shifted : suc (p + k) ≡ suc p + k = omega arith in
    get_elem?-drop p t k ∙ ap (get_elem? (c ∷ t)) shifted

get_elem?-take :
    (n : ℕ) (t : Text) (k : ℕ) → get_elem? (take n t) k ≡ (if ltb k n then get_elem? t k else none)
get_elem?-take zero t k = ground arith
get_elem?-take (suc n) [] k = ground arith
get_elem?-take (suc n) (c ∷ t) zero = ground arith
get_elem?-take (suc n) (c ∷ t) (suc k) = get_elem?-take n t k ∙ ground arith

get_elem?-short : (t : Text) (k : ℕ) → length t ≤ k → get_elem? t k ≡ none
get_elem?-short [] k h = refl
get_elem?-short (c ∷ t) zero h = absurd (omega arith)
get_elem?-short (c ∷ t) (suc k) h = get_elem?-short t k (omega arith)

eq_of_all_elem : (x y : Text) → ((k : ℕ) → get_elem? x k ≡ get_elem? y k) → x ≡ y
eq_of_all_elem [] [] e = refl
eq_of_all_elem [] (c ∷ y) e = let head : none ≡ some c = e 0 in cc
eq_of_all_elem (b ∷ x) [] e = let head : some b ≡ none = e 0 in cc
eq_of_all_elem (b ∷ x) (c ∷ y) e =
    let head : some b ≡ some c = e 0 in let rest = eq_of_all_elem x y (λ k. e (suc k)) in cc

module _ (source : Text) (p : ℕ) (parts : List Text)
    (arrived : join parts ≡ send_from p source) where
  abbrev left : Text
  left = drop p source

  abbrev sent : Text
  sent = take (chunk_size + small_chunk_size) left

  -- What is written is the beginning of what is left of the file.
  recv_loop-honest : recv_loop chunk_size parts ≡ take (length (recv_loop chunk_size parts)) left
  recv_loop-honest =
      let t = recv_loop chunk_size parts in
      let (rest, e) = recv_loop-prefix chunk_size parts in
      let after = drop (chunk_size + small_chunk_size) left in
      sym (
        ap (take (length t)) (
          sym (take-append-drop (chunk_size + small_chunk_size) left)
          ∙ ap (λ u. u ++ after) (sym (arrived ∙ send_from_lem p source) ∙ e)
          ∙ append_assoc t rest after)
        ∙ take-append_self t (rest ++ after))

  length-recv_loop :
      NonEmpty parts
      → (k : ℕ) → k < chunk_size
      → p + k < length source
      → k < length (recv_loop chunk_size parts)
  length-recv_loop h k l j = recv_loop-long chunk_size parts k h l (
      omega (
        arith,
        lt-length-take k (chunk_size + small_chunk_size) left (omega arith)
            (omega (arith, length-drop p source)),
        ap length (arrived ∙ send_from_lem p source),
      ))

  module _ (file : Text) (h : length file ≡ length source) (l : p ≤ length source)
      (n : NonEmpty parts) where
    byte_after :
        (k : ℕ)
        → k < chunk_size
        → get_elem? (fwrite_at p (recv_loop chunk_size parts) file) (p + k)
          ≡ get_elem? source (p + k)
    byte_after k j =
        let t = recv_loop chunk_size parts in
        ap (λ u. get_elem? (fwrite_at p u file) (p + k)) recv_loop-honest
        ∙ get_elem?-fwrite_at p (length t) source file h l (p + k)
        ∙ elim (Bool-cases (ltb (p + k) (length source))) [
          | inl inside ↦
              let covered = length-recv_loop n k j (ground arith) in
              let hit : within p (length t) (p + k) ≡ true = ground (arith, covered) in
              ap (λ b. if b then get_elem? source (p + k) else get_elem? file (p + k)) hit
          | inr behind ↦
              let nothing = get_elem?-short source (p + k) (ground arith) in
              let nothing' = get_elem?-short file (p + k) (ground arith) in
              ap (λ x. if within p (length t) (p + k) then x else get_elem? file (p + k)) nothing
              ∙ ap (λ x. if within p (length t) (p + k) then none else x) nothing'
              ∙ same (within p (length t) (p + k)) none
              ∙ sym nothing
        ]
      where
        same : (b : Bool) (x : Option ℕ) → (if b then x else x) ≡ x
        same true x = refl
        same false x = refl

    -- The piece is then the source's piece.
    pub piece-fwrite_at :
        take chunk_size (drop p (fwrite_at p (recv_loop chunk_size parts) file))
        ≡ take chunk_size (drop p source)
    piece-fwrite_at = eq_of_all_elem _ _ λ k.
        let file' = fwrite_at p (recv_loop chunk_size parts) file in
        get_elem?-take chunk_size (drop p file') k
        ∙ ap (λ x. if ltb k chunk_size then x else none) (get_elem?-drop p file' k)
        ∙ elim (Bool-cases (ltb k chunk_size)) [
          | inl inside ↦
              ap (λ x. if ltb k chunk_size then x else none) (byte_after k (ground arith))
          | inr behind ↦
              ap (λ b. if b then get_elem? file' (p + k) else none) behind
              ∙ ap (λ b. if b then get_elem? source (p + k) else none) (sym behind)
        ]
        ∙ sym (
            get_elem?-take chunk_size (drop p source) k
            ∙ ap (λ x. if ltb k chunk_size then x else none) (get_elem?-drop p source k))
