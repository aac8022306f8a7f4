-- ===== src/Peer/Choice.antt =====
-- Which seeder is asked for which piece: `populate` and `Decide` of peer/peerdownload.cpp. A cell of
-- the matrix is `none` for -1; a write or read past the end of a vector has no result.
pub mod Cells
pub mod Holders
use torrent_based_file_shari.Common.{ℕ, zero, suc, Option, none, some, List, [], ◌∷◌, get_elem?}
use torrent_based_file_shari.Tracker.Fetch.{bind}

abbrev pub Cell : Type 0
Cell = Option ℕ

-- `vector[i]=c`
unfoldable pub set_cell : ℕ → Cell → List Cell → Option (List Cell)
set_cell i c [] = none
set_cell zero c (x ∷ xs) = some (c ∷ xs)
set_cell (suc i) c (x ∷ xs) = bind (set_cell i c xs) λ ys. some (x ∷ ys)

-- The inner loop of `populate`.
unfoldable pub mark : List ℕ → List Cell → Option (List Cell)
mark [] row = some row
mark (j ∷ js) row = bind (set_cell j (some 1) row) λ r. mark js r

-- `populate`: the seeders with the pieces that they have, counted from 1, one row for each.
unfoldable pub populate : List (List Cell) → List (ℕ × List ℕ) → Option (List (List Cell))
populate matrix [] = some matrix
populate [] (e ∷ v) = none
populate (row ∷ matrix) ((seeder, has) ∷ v) =
    bind (set_cell 0 (some seeder) row)
      λ r. bind (mark has r) λ r'. bind (populate matrix v) λ rest. some (r' ∷ rest)

abbrev pub unless_set : Cell → Cell → Cell
unless_set none first = first
unless_set (some k) first = some k

-- The loop of `Decide` over the rows, for the column `j`.
unfoldable pub column : ℕ → List (List Cell) → Cell → Option Cell
column j [] chunk = some chunk
column j (row ∷ rows) chunk = bind (get_elem? row j) λ cell. elim cell [
  | none ↦ column j rows chunk
  | some _ ↦ bind (get_elem? row 0) λ first. column j rows (unless_set chunk first)
]

-- `Decide`, for the columns from `j` on; there is one column for each piece.
unfoldable pub decide_from : ℕ → List (List Cell) → List Cell → Option (List Cell)
decide_from j matrix [] = some []
decide_from j matrix (chunk ∷ chunks) =
    bind (column j matrix chunk) λ c. bind (decide_from (suc j) matrix chunks) λ cs. some (c ∷ cs)

unfoldable pub decide : List (List Cell) → List Cell → Option (List Cell)
decide matrix chunks = decide_from 1 matrix chunks
