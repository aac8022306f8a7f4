-- ===== src/Peer/Download/Decided.antt =====
-- What `std::sort` and the choice of `Decide` keep of the offers of the seeders.
use torrent_based_file_shari.Common.{
  ℕ, zero, suc, ◌+◌, ◌%◌, ◌<◌, ◌≤◌, ◌≡◌, ◌≢◌, refl, ap, ◌∙◌, inl, inr, Bool, true, false, ◌&&◌,
  none, some, List, [], ◌∷◌, arith, leb, ◌==◌, if◌then◌else◌, length, get_elem?, any, All, All-map,
  Bool-cases, Option-cases, Text, Table,
}
use torrent_based_file_shari.Peer.Choice.{Cell, populate, set_cell, mark}
use torrent_based_file_shari.Peer.Choice.Holders.{blank, blank_rows, holder, holders, InRange}
use torrent_based_file_shari.Peer.Download.{FileData, in_turn}
use torrent_based_file_shari.Peer.Download.Asked.{offered}

abbrev pub Offers : Type 0
Offers = List (ℕ × List ℕ)

-- The elements of a vector are there after a sort, whatever the order.
abbrev pub KeepsAll : (Offers → Offers) → Offers → Type 0
KeepsAll sort v =
    (length (sort v) ≡ length v) × ((p : ℕ × List ℕ → Bool) → any p (sort v) ≡ any p v)

abbrev pub Rearranges : (Offers → Offers) → Type 0
Rearranges sort =
    ((v : Offers) → length (sort v) ≡ length v)
    × ((p : ℕ × List ℕ → Bool) (v : Offers) → any p (sort v) ≡ any p v)

-- No two seeders name the same number of pieces.
abbrev pub AllDiffer : Offers → Type 0
AllDiffer [] = Unit
AllDiffer (a ∷ v) = All (λ b. length a.1 ≢ length b.1) v × AllDiffer v

-- What is asked of `std::sort` with `my_comp`: the elements stay the same where no two of them name the same
-- number of pieces, since there `my_comp` is the strict order by that number. On two elements of one number
-- it holds both ways, and nothing is asked.
abbrev pub RearrangesDiffering : (Offers → Offers) → Type 0
RearrangesDiffering sort = (v : Offers) → AllDiffer v → KeepsAll sort v

All-any : (p : ℕ × List ℕ → Bool) (v : Offers) → any p v ≡ false → All (λ e. p e ≡ false) v
All-any p [] h = tt
All-any p (e ∷ v) h = elim (Bool-cases (p e)) [
  | inl b ↦ absurd (ground (arith, b, h))
  | inr b ↦ (b, All-any p v (rw b at h))
]

any_of_All : (p : ℕ × List ℕ → Bool) (v : Offers) → All (λ e. p e ≡ false) v → any p v ≡ false
any_of_All p [] h = refl
any_of_All p (e ∷ v) (b, h) = rw (b, any_of_All p v h) refl

abbrev outside : ℕ → List ℕ → Bool
outside nchunks [] = false
outside nchunks (j ∷ js) = if leb 1 j && leb j nchunks then outside nchunks js else true

outside_of_InRange :
    (nchunks : ℕ) (js : List ℕ) → All (λ j. (1 ≤ j) × (j ≤ nchunks)) js → outside nchunks js ≡ false
outside_of_InRange nchunks [] h = refl
outside_of_InRange nchunks (j ∷ js) (b, h) =
    ground (arith, b.0, b.1, outside_of_InRange nchunks js h)

InRange_of_outside :
    (nchunks : ℕ) (js : List ℕ) → outside nchunks js ≡ false → All (λ j. (1 ≤ j) × (j ≤ nchunks)) js
InRange_of_outside nchunks [] h = tt
InRange_of_outside nchunks (j ∷ js) h = elim (Bool-cases (leb 1 j && leb j nchunks)) [
  | inl b ↦ (ground (arith, b), InRange_of_outside nchunks js (rw b at h))
  | inr b ↦ absurd (ground (arith, b, h))
]

pub InRange-sort :
    (sort : Offers → Offers) (nchunks : ℕ) (v : Offers)
    → KeepsAll sort v
    → All (InRange nchunks) v
    → All (InRange nchunks) (sort v)
InRange-sort sort nchunks v (same, stays) h =
    let p : ℕ × List ℕ → Bool = λ e. outside nchunks e.1 in
    All-map (λ e o. InRange_of_outside nchunks e.1 o) (sort v)
      (All-any p (sort v)
        (stays p ∙ any_of_All p v (All-map (λ e b. outside_of_InRange nchunks e.1 b) v h)))

pub same_rows :
    (nchunks : ℕ) (v w : Offers) → length v ≡ length w → blank_rows nchunks v ≡ blank_rows nchunks w
same_rows nchunks [] [] e = refl
same_rows nchunks [] (y ∷ w) e = absurd (omega arith)
same_rows nchunks (x ∷ v) [] e = absurd (omega arith)
same_rows nchunks (x ∷ v) (y ∷ w) e =
    ap (λ r. blank (suc nchunks) ∷ r) (same_rows nchunks v w (omega arith))

-- The seeder `k` of the offers has the piece in the column `j`.
abbrev pub gives : ℕ → ℕ → ℕ × List ℕ → Bool
gives j k e = (e.0 == k) && any (λ i. i == j) e.1

pub holder-some : (j k : ℕ) (v : Offers) → holder j v ≡ some k → any (gives j k) v ≡ true
holder-some j k [] h = let bad : none ≡ some k = h in cc
holder-some j k ((seeder, has) ∷ v) h = elim (Bool-cases (any (λ i. i == j) has)) [
  | inl b ↦
      let found : some seeder ≡ some k = rw b at h in
      let same : seeder ≡ k = cc in ground (arith, b, same)
  | inr b ↦ let rest = holder-some j k v (rw b at h) in ground (arith, rest)
]

pub holder-none :
    (j : ℕ) (v : Offers) → holder j v ≡ none → any (λ e. any (λ i. i == j) e.1) v ≡ false
holder-none j [] h = refl
holder-none j ((seeder, has) ∷ v) h = elim (Bool-cases (any (λ i. i == j) has)) [
  | inl b ↦ let bad : some seeder ≡ none = rw b at h in cc
  | inr b ↦ rw (b, holder-none j v (rw b at h)) refl
]

-- A matrix with a row has a first row.
populate-row :
    (row : List Cell) (rows m : List (List Cell)) (seeder : ℕ) (has : List ℕ) (v : Offers)
    → populate (row ∷ rows) ((seeder, has) ∷ v) ≡ some m
    → (first : List Cell) × (get_elem? m 0 ≡ some first)
unfolding populate
populate-row row rows m seeder has v h = elim (Option-cases (set_cell 0 (some seeder) row)) [
  | inl e ↦ let bad : none ≡ some m = rw e at h in cc
  | inr (r, e) ↦ elim (Option-cases (mark has r)) [
    | inl f ↦ let bad : none ≡ some m = rw (e, f) at h in cc
    | inr (r', f) ↦ elim (Option-cases (populate rows v)) [
      | inl g ↦ let bad : none ≡ some m = rw (e, f, g) at h in cc
      | inr (rest, g) ↦
          let good : some (r' ∷ rest) ≡ some m = rw (e, f, g) at h in
          let same : m ≡ r' ∷ rest = cc in (r', rw same refl)
    ]
  ]
]

pub populate-first :
    (nchunks : ℕ) (v : Offers) (m : List (List Cell))
    → 0 < length v
    → populate (blank_rows nchunks v) v ≡ some m
    → (first : List Cell) × (get_elem? m 0 ≡ some first)
populate-first nchunks [] m l h = absurd (omega arith)
populate-first nchunks ((seeder, has) ∷ v) m l h =
    populate-row (blank (suc nchunks)) (blank_rows nchunks v) m seeder has v h

pub length-in_turn : (nseeder num n : ℕ) → length (in_turn nseeder num n) ≡ n
unfolding in_turn
length-in_turn nseeder num zero = refl
length-in_turn nseeder num (suc n) = omega (arith, length-in_turn nseeder ((num + 1) % nseeder) n)

pub length-holders : (j n : ℕ) (v : Offers) → length (holders j n v) ≡ n
length-holders j zero v = refl
length-holders j (suc n) v = omega (arith, length-holders (suc j) n v)

pub length-offered :
    (tables : Text → Table (List ℕ)) (meta : FileData) (nchunks i : ℕ) (ss : List Text)
    → length (offered tables meta nchunks i ss) ≡ length ss
length-offered tables meta nchunks i [] = refl
length-offered tables meta nchunks i (s ∷ ss) =
    omega (arith, length-offered tables meta nchunks (suc i) ss)
