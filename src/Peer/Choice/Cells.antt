-- ===== src/Peer/Choice/Cells.antt =====
-- The cells of a row after the writes of `populate`.
use torrent_based_file_shari.Common.{
  ℕ, zero, suc, ◌<◌, ◌≡◌, refl, ap, ◌∙◌, ◌==◌, Bool, true, false, Option, some, List, [], ◌∷◌,
  arith, if◌then◌else◌, get_elem?, any, length, All, All-map,
}
use torrent_based_file_shari.Peer.Choice.{Cell, set_cell, mark}

-- A write inside of a vector, and what the cells are after it.
pub set_cell_lem :
    (i : ℕ) (c : Cell) (row : List Cell)
    → i < length row
    → (row' : List Cell) × (set_cell i c row ≡ some row')
      × (length row' ≡ length row)
      × ((j : ℕ) → get_elem? row' j ≡ (if i == j then some c else get_elem? row j))
unfolding set_cell
set_cell_lem i c [] h = absurd (omega arith)
set_cell_lem zero c (x ∷ xs) h = (c ∷ xs, refl, refl, cells)
  where
    cells : (j : ℕ) → get_elem? (c ∷ xs) j ≡ (if 0 == j then some c else get_elem? (x ∷ xs) j)
    cells zero = refl
    cells (suc j) = ground arith
set_cell_lem (suc i) c (x ∷ xs) h =
    let (ys, e, l, cells) = set_cell_lem i c xs (omega arith) in
    (x ∷ ys, rw e refl, ap suc l, step ys cells)
  where
    step :
        (ys : List Cell)
        → ((j : ℕ) → get_elem? ys j ≡ (if i == j then some c else get_elem? xs j))
        → (j : ℕ) → get_elem? (x ∷ ys) j ≡ (if suc i == j then some c else get_elem? (x ∷ xs) j)
    step ys cells zero = ground arith
    step ys cells (suc j) = cells j ∙ ap (λ b. if b then some c else get_elem? xs j) (ground arith)

pub mark_lem :
    (has : List ℕ) (row : List Cell)
    → All (λ i. i < length row) has
    → (row' : List Cell) × (mark has row ≡ some row')
      × (length row' ≡ length row)
      × ((j : ℕ)
          → get_elem? row' j ≡ (if any (λ i. i == j) has then some (some 1) else get_elem? row j))
unfolding mark
mark_lem [] row h = (row, refl, refl, λ j. refl)
mark_lem (i ∷ is) row (hi, his) =
    let (r, e, l, cells) = set_cell_lem i (some 1) row hi in
    let fits : All (λ k. k < length r) is = All-map (λ k lt. omega (arith, l)) is his in
    let (r', e', l', cells') = mark_lem is r fits in
    (r', rw e e', l' ∙ l, λ j. cells' j ∙ marked (i == j) _ _ (cells j))
  where
    marked :
        (b b' : Bool) {c : Option Cell} (x : Option Cell)
        → c ≡ (if b then some (some 1) else x)
        → (if b' then some (some 1) else c)
          ≡ (if (if b then true else b') then some (some 1) else x)
    marked true true x e = refl
    marked true false x e = e
    marked false true x e = refl
    marked false false x e = e
