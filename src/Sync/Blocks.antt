-- ===== src/Sync/Blocks.antt =====
-- The blocks of a text: put together they are the text, and all but the last are full.
use torrent_based_file_shari.Common.{
  ℕ, zero, suc, ◌*◌, ◌≤◌, ◌<◌, ◌≡◌, refl, sym, ap, ◌∙◌, ◌⊎◌, inl, inr, [], ◌∷◌, ◌++◌, append_assoc,
  arith, leb, Bool-cases, join, length, length-append, take, drop, take-append-drop, length-drop,
  length-take, take_all, nil_of_length, blocks, All, All-map, Text,
}

pub join-blocks : (fuel n : ℕ) (xs : Text) → length xs ≤ fuel → 0 < n → join (blocks fuel n xs) ≡ xs
join-blocks zero n xs h k = sym (nil_of_length xs h)
join-blocks (suc fuel) n [] h k = refl
join-blocks (suc fuel) n (x ∷ xs) h k =
    ap (λ l. take n (x ∷ xs) ++ l)
      (join-blocks fuel n (drop n (x ∷ xs)) (omega (arith, length-drop n (x ∷ xs))) k)
    ∙ take-append-drop n (x ∷ xs)

-- A block is full, or it is the end of the text behind a number of full ones.
abbrev pub IsBlock : ℕ → Text → Text → Type 0
IsBlock n xs b =
    (length b ≡ n) ⊎ ((before : Text) × (k : ℕ) × (xs ≡ before ++ b) × (length before ≡ k * n))

IsBlock-drop : (n : ℕ) (xs b : Text) → n ≤ length xs → IsBlock n (drop n xs) b → IsBlock n xs b
IsBlock-drop n xs b h (inl full) = inl full
IsBlock-drop n xs b h (inr (before, k, e, l)) = inr (
  take n xs ++ before,
  suc k,
  sym (take-append-drop n xs)
      ∙ ap (λ r. take n xs ++ r) e
      ∙ sym (append_assoc (take n xs) before b),
  omega (arith, length-append (take n xs) before, length-take n xs h),
)

pub blocks-IsBlock : (fuel n : ℕ) (xs : Text) → All (IsBlock n xs) (blocks fuel n xs)
blocks-IsBlock zero n xs = tt
blocks-IsBlock (suc fuel) n [] = tt
blocks-IsBlock (suc fuel) n (x ∷ xs) = elim (Bool-cases (leb n (length (x ∷ xs)))) [
  | inl long ↦
      let h : n ≤ length (x ∷ xs) = ground arith in
      (
        inl (length-take n (x ∷ xs) h),
        All-map (λ b. IsBlock-drop n (x ∷ xs) b h) _ (blocks-IsBlock fuel n (drop n (x ∷ xs))),
      )
  | inr short ↦
      let h : length (x ∷ xs) ≤ n = ground arith in
      let e : drop n (x ∷ xs) ≡ [] = nil_of_length _ (omega (arith, length-drop n (x ∷ xs))) in
      (inr ([], 0, sym (take_all n (x ∷ xs) h), omega arith), rw (e) (no_more fuel n (x ∷ xs)))
]
  where
    no_more : (f m : ℕ) (ys : Text) → All (IsBlock m ys) (blocks f m [])
    no_more zero m ys = tt
    no_more (suc f) m ys = tt
