-- ===== src/Peer/Server/Sending.antt =====
-- What the loop of `TransferFunction` sends.
use torrent_based_file_shari.Common.{
  ℕ, zero, suc, ◌+◌, ◌-◌, ◌*◌, ◌≤◌, ◌<◌, ◌≡◌, refl, sym, ap, ◌∙◌, true, List, [], ◌∷◌, ◌++◌, arith,
  ltb, length, length-drop, length-take, take, drop, blocks, Text, ◌⊎◌, inl, inr,
}
use torrent_based_file_shari.Peer.Pieces.{chunk_size}
use torrent_based_file_shari.Peer.Server.{small_chunk_size, send_loop, send_from}

pub take_nil : (k : ℕ) → take {A = ℕ} k [] ≡ []
take_nil zero = refl
take_nil (suc k) = refl

pub take_add : (m n : ℕ) (t : Text) → take m t ++ take n (drop m t) ≡ take (m + n) t
take_add zero n t = ap (λ k. take k t) (omega arith)
take_add (suc m) n [] = take_nil n ∙ sym (take_nil (suc m + n))
take_add (suc m) n (c ∷ t) =
    let shifted : suc (m + n) ≡ suc m + n = omega arith in
    ap (λ r. c ∷ r) (take_add m n t) ∙ ap (λ k. take k (c ∷ t)) shifted

send_loop-zero : (bs : List Text) → send_loop 0 bs ≡ []
unfolding send_loop
send_loop-zero [] = refl
send_loop-zero (b ∷ bs) = refl

send_loop-blocks_nil : (total rounds : ℕ) → send_loop total (blocks rounds 1024 []) ≡ []
unfolding send_loop
send_loop-blocks_nil total zero = refl
send_loop-blocks_nil total (suc rounds) = refl

drop_all : (n : ℕ) (t : Text) → length t ≤ n → drop n t ≡ []
drop_all zero [] h = refl
drop_all zero (c ∷ t) h = absurd (omega arith)
drop_all (suc n) [] h = refl
drop_all (suc n) (c ∷ t) h = drop_all n t (omega arith)

-- After a block of 1024 bytes.
after_block :
    (k : ℕ) (bs : List Text) (left : Text)
    → ((j : ℕ) → suc j ≡ k → send_loop (j * 1024 + 1) bs ≡ take (j * 1024 + 1024) left)
    → send_loop (k * 1024 + 1 - 1024) bs ≡ take (k * 1024) left
after_block zero bs left next = send_loop-zero bs
after_block (suc j) bs left next =
    let total : suc j * 1024 + 1 - 1024 ≡ j * 1024 + 1 = omega arith in
    let taken : j * 1024 + 1024 ≡ suc j * 1024 = omega arith in
    ap (λ n. send_loop n bs) total ∙ next j refl ∙ ap (λ n. take n left) taken

-- After the first block, also where it is a short one.
send_loop-rest :
    (k rounds : ℕ) (t : Text)
    → ((j : ℕ)
        → suc j ≡ k
        → send_loop (j * 1024 + 1) (blocks rounds 1024 (drop 1024 t))
          ≡ take (j * 1024 + 1024) (drop 1024 t))
    → (length t ≤ 1024) ⊎ (1024 < length t)
    → send_loop (k * 1024 + 1 - length (take 1024 t)) (blocks rounds 1024 (drop 1024 t))
      ≡ take (k * 1024) (drop 1024 t)
send_loop-rest k rounds t next (inl short) =
    rw (drop_all 1024 t short) (send_loop-blocks_nil _ rounds ∙ sym (take_nil (k * 1024)))
send_loop-rest k rounds t next (inr long) =
    ap (λ n. send_loop (k * 1024 + 1 - n) (blocks rounds 1024 (drop 1024 t)))
      (length-take 1024 t (omega arith))
    ∙ after_block k (blocks rounds 1024 (drop 1024 t)) (drop 1024 t) next

send_loop-blocks :
    (k rounds : ℕ) (t : Text)
    → length t ≤ rounds
    → send_loop (k * 1024 + 1) (blocks rounds 1024 t) ≡ take (k * 1024 + 1024) t
unfolding send_loop
send_loop-blocks k rounds [] h =
    send_loop-blocks_nil (k * 1024 + 1) rounds ∙ sym (take_nil (k * 1024 + 1024))
send_loop-blocks k zero (c ∷ cs) h = absurd (omega arith)
send_loop-blocks k (suc rounds) (c ∷ cs) h =
    let t = c ∷ cs in
    let more : ltb 0 (k * 1024 + 1) ≡ true = ground arith in
    let total : 1024 + k * 1024 ≡ k * 1024 + 1024 = omega arith in
    let next = λ (j : ℕ) (e : suc j ≡ k).
      send_loop-blocks j rounds (drop 1024 t) (omega (arith, length-drop 1024 t)) in
    rw more (
      ap (λ r. take 1024 t ++ r) (send_loop-rest k rounds t next (split_at (length t)))
      ∙ take_add 1024 (k * 1024) t
      ∙ ap (λ n. take n t) total)
  where
    split_at : (n : ℕ) → (n ≤ 1024) ⊎ (1024 < n)
    split_at n = ground arith

-- `TransferFunction` sends the piece and at most 1024 bytes of the next one.
pub send_from_lem :
    (start : ℕ) (bytes : Text)
    → send_from start bytes ≡ take (chunk_size + small_chunk_size) (drop start bytes)
unfolding send_from
send_from_lem start bytes =
    send_loop-blocks 512 (length (drop start bytes)) (drop start bytes) (omega arith)
