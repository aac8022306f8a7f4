-- ===== src/Peer/Choice/Holders.antt =====
-- The chosen seeder has the piece.
use torrent_based_file_shari.Common.{
  ℕ, zero, suc, ◌+◌, ◌≤◌, ◌<◌, ◌≡◌, refl, ap, ◌∙◌, ◌==◌, Bool, true, false, none, some, List, [],
  ◌∷◌, arith, if◌then◌else◌, get_elem?, any, length, All, Bool-cases, inl, inr, All-map,
}
use torrent_based_file_shari.Peer.Choice.{
  Cell, set_cell, mark, populate, unless_set, column, decide_from, decide,
}
use torrent_based_file_shari.Peer.Choice.Cells.{set_cell_lem, mark_lem}

-- `n` cells of -1, and such rows, one for each seeder.
abbrev pub blank : ℕ → List Cell
blank zero = []
blank (suc n) = none ∷ blank n

abbrev pub blank_rows : ℕ → List (ℕ × List ℕ) → List (List Cell)
blank_rows nchunks [] = []
blank_rows nchunks (e ∷ v) = blank (suc nchunks) ∷ blank_rows nchunks v

-- The first of the seeders that has the piece `j`, and this for `n` pieces from `j` on.
abbrev pub holder : ℕ → List (ℕ × List ℕ) → Cell
holder j [] = none
holder j ((seeder, has) ∷ v) = if any (λ i. i == j) has then some seeder else holder j v

abbrev pub holders : ℕ → ℕ → List (ℕ × List ℕ) → List Cell
holders j zero v = []
holders j (suc n) v = holder j v ∷ holders (suc j) n v

length-blank : (n : ℕ) → length (blank n) ≡ n
length-blank zero = refl
length-blank (suc n) = omega (arith, length-blank n)

get_elem?-blank : (n j : ℕ) → j < n → get_elem? (blank n) j ≡ some none
get_elem?-blank zero j h = absurd (omega arith)
get_elem?-blank (suc n) zero h = refl
get_elem?-blank (suc n) (suc j) h = get_elem?-blank n j (omega arith)

abbrev cell_of : Bool → Cell
cell_of true = some 1
cell_of false = none

-- A row that says what the seeder has.
abbrev Tells : ℕ → ℕ × List ℕ → List Cell → Type 0
Tells nchunks (seeder, has) row =
    (get_elem? row 0 ≡ some (some seeder))
    × ((j : ℕ) → 1 ≤ j → j ≤ nchunks → get_elem? row j ≡ some (cell_of (any (λ i. i == j) has)))

abbrev TellAll : ℕ → List (ℕ × List ℕ) → List (List Cell) → Type 0
TellAll nchunks [] [] = Unit
TellAll nchunks [] (row ∷ m) = ⊥
TellAll nchunks (e ∷ v) [] = ⊥
TellAll nchunks (e ∷ v) (row ∷ m) = Tells nchunks e row × TellAll nchunks v m

-- The pieces that a seeder may name.
abbrev pub InRange : ℕ → ℕ × List ℕ → Type 0
InRange nchunks (seeder, has) = All (λ j. (1 ≤ j) × (j ≤ nchunks)) has

no_zero :
    (nchunks : ℕ) (has : List ℕ)
    → All (λ j. (1 ≤ j) × (j ≤ nchunks)) has
    → any (λ i. i == 0) has ≡ false
no_zero nchunks [] h = refl
no_zero nchunks (i ∷ is) (hi, his) = ground (arith, no_zero nchunks is his, hi.0)

row_lem :
    (nchunks seeder : ℕ) (has : List ℕ)
    → InRange nchunks (seeder, has)
    → (r : List Cell) × (row : List Cell) × (set_cell 0 (some seeder) (blank (suc nchunks))
        ≡ some r)
      × (mark has r ≡ some row)
      × Tells nchunks (seeder, has) row
row_lem nchunks seeder has h =
    let (r, e, l, cells) = set_cell_lem 0 (some seeder) (blank (suc nchunks)) (omega arith) in
    let fits : All (λ k. k < length r) has =
      All-map (λ k b. omega (arith, l, length-blank nchunks, b.1)) has h in
    let (row, e', l', cells') = mark_lem has r fits in
    (
      r,
      row,
      e,
      e',
      (
        cells' 0
            ∙ ap (λ b. if b then some (some 1) else get_elem? r 0) (no_zero nchunks has h)
            ∙ cells 0,
        λ j pos le.
            cells' j
            ∙ ap (λ c. if any (λ i. i == j) has then some (some 1) else c)
                (cells j ∙ off j pos ∙ get_elem?-blank (suc nchunks) j (omega arith))
            ∙ inside (any (λ i. i == j) has),
      ),
    )
  where
    off :
        (j : ℕ)
        → 1 ≤ j
        → (if 0 == j then some (some seeder) else get_elem? (blank (suc nchunks)) j)
          ≡ get_elem? (blank (suc nchunks)) j
    off j pos = ground arith

    inside :
        (b : Bool) → (if b then some (cell_of true) else some (cell_of false)) ≡ some (cell_of b)
    inside true = refl
    inside false = refl

populate_lem :
    (nchunks : ℕ) (v : List (ℕ × List ℕ))
    → All (InRange nchunks) v
    → (m : List (List Cell)) × (populate (blank_rows nchunks v) v ≡ some m) × TellAll nchunks v m
unfolding populate
populate_lem nchunks [] h = ([], refl, tt)
populate_lem nchunks ((seeder, has) ∷ v) (h, hs) =
    let (r, row, e, e', t) = row_lem nchunks seeder has h in
    let (m, em, ts) = populate_lem nchunks v hs in (row ∷ m, rw (e, e', em) refl, (t, ts))

column_lem :
    (nchunks j : ℕ) (v : List (ℕ × List ℕ)) (m : List (List Cell)) (chunk : Cell)
    → TellAll nchunks v m
    → 1 ≤ j
    → j ≤ nchunks
    → column j m chunk ≡ some (unless_set chunk (holder j v))
unfolding column
column_lem nchunks j [] [] none t pos le = refl
column_lem nchunks j [] [] (some k) t pos le = refl
column_lem nchunks j [] (row ∷ m) chunk t pos le = absurd t
column_lem nchunks j (e ∷ v) [] chunk t pos le = absurd t
column_lem nchunks j ((seeder, has) ∷ v) (row ∷ m) chunk ((zeroth, cells), ts) pos le =
    elim (Bool-cases (any (λ i. i == j) has)) [
      | inl has_it ↦
          rw (cells j pos le, has_it, zeroth)
            (column_lem nchunks j v m (unless_set chunk (some seeder)) ts pos le
              ∙ ap some (settled chunk (holder j v)))
      | inr lacks_it ↦ rw (cells j pos le, lacks_it) (column_lem nchunks j v m chunk ts pos le)
    ]
  where
    settled :
        (chunk later : Cell)
        → unless_set (unless_set chunk (some seeder)) later ≡ unless_set chunk (some seeder)
    settled none later = refl
    settled (some k) later = refl

decide_lem :
    (nchunks j n : ℕ) (v : List (ℕ × List ℕ)) (m : List (List Cell))
    → TellAll nchunks v m
    → 1 ≤ j
    → j + n ≤ suc nchunks
    → decide_from j m (blank n) ≡ some (holders j n v)
unfolding decide_from
decide_lem nchunks j zero v m t pos le = refl
decide_lem nchunks j (suc n) v m t pos le =
    rw
      (
        column_lem nchunks j v m none t pos (omega arith),
        decide_lem nchunks (suc j) n v m t (omega arith) (omega arith),
      )
      refl

-- For seeders that name pieces in range, `populate` and `Decide` read and write no vector past its
-- end, and choose for every piece the first of the seeders, in the order they were given, that has it;
-- for a piece that none has the choice stays -1.
pub decide-populate :
    (nchunks : ℕ) (v : List (ℕ × List ℕ))
    → All (InRange nchunks) v
    → (m : List (List Cell)) × (populate (blank_rows nchunks v) v ≡ some m)
      × (decide m (blank nchunks) ≡ some (holders 1 nchunks v))
unfolding decide
decide-populate nchunks v h =
    let (m, e, t) = populate_lem nchunks v h in
    (m, e, decide_lem nchunks 1 nchunks v m t (omega arith) (omega arith))
