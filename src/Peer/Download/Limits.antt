-- ===== src/Peer/Download/Limits.antt =====
-- The number of pieces, and what one unreachable seeder means for `GetChunks`.
use torrent_based_file_shari.Common.{
  ℕ, suc, ◌*◌, ◌%◌, ◌<◌, ◌≡◌, refl, sym, ap, ◌∙◌, ◌⊎◌, inl, inr, Option, none, List, [], ◌∷◌, arith,
  ◌==◌, Text, Option-cases, Bool-cases,
}
use torrent_based_file_shari.Common.Decimal.{atoi}
use torrent_based_file_shari.Peer.Pieces.{chunk_size}
use torrent_based_file_shari.Peer.Download.{
  FileData, address, offer, chunk_numbers_line, offers_of, calc_chunk, nchunks_of, chunk_count,
  get_chunks,
}

-- The pieces of `GetChunks` are exactly those that begin within the file: none is empty and none is
-- left out.
pub nchunks_of-bounds :
    (size i : ℕ)
    → (i < nchunks_of size → i * chunk_size < size) × (i * chunk_size < size → i < nchunks_of size)
nchunks_of-bounds size i = elim (Bool-cases (size % chunk_size == 0)) [
  | inl e ↦ rw e ((λ h. ground arith), (λ h. ground arith))
  | inr e ↦ rw e ((λ h. ground arith), (λ h. ground arith))
]

abbrev pub Named : Text → List Text → Type 0
Named s [] = ⊥
Named s (x ∷ xs) = (s ≡ x) ⊎ Named s xs

module _ (ask_peer : Text × Text → Text → Option Text) (meta : FileData) where
  offers_of-unreachable :
      (nchunks i : ℕ) (s : Text) (ss : List Text)
      → Named s ss
      → ask_peer (address meta s) (chunk_numbers_line meta) ≡ none
      → offers_of ask_peer meta nchunks i ss ≡ none
  unfolding offers_of
  offers_of-unreachable nchunks i s [] h e = absurd h
  offers_of-unreachable nchunks i s (x ∷ ss) (inl same) e =
      let here : ask_peer (address meta x) (chunk_numbers_line meta) ≡ none =
        ap (λ y. ask_peer (address meta y) (chunk_numbers_line meta)) (sym same) ∙ e in
      rw here refl
  offers_of-unreachable nchunks i s (x ∷ ss) (inr later) e =
      elim (Option-cases (ask_peer (address meta x) (chunk_numbers_line meta))) [
        | inl f ↦ rw f refl
        | inr (reply, f) ↦ elim (Option-cases (offer nchunks reply)) [
          | inl g ↦ rw (f, g) refl
          | inr ((cs, partial), g) ↦
              rw (f, g, offers_of-unreachable nchunks (suc i) s ss later e) refl
        ]
      ]

-- One seeder in the list that cannot be reached ends the program before any piece is asked for, even if
-- every other seeder has the whole file.
pub get_chunks-unreachable :
    (ask_peer : Text × Text → Text → Option Text) (sort : List (ℕ × List ℕ) → List (ℕ × List ℕ))
    (meta : FileData) (s : Text)
    → Named s meta.seeders
    → ask_peer (address meta s) (chunk_numbers_line meta) ≡ none
    → get_chunks ask_peer sort meta ≡ none
unfolding get_chunks calc_chunk
get_chunks-unreachable ask_peer sort meta s h e = elim (Option-cases (atoi meta.size)) [
  | inl f ↦ rw f refl
  | inr (z, f) ↦ elim (Option-cases (chunk_count z)) [
    | inl g ↦ rw (f, g) refl
    | inr (nchunks, g) ↦
        rw (f, g, offers_of-unreachable ask_peer meta nchunks 0 s meta.seeders h e) refl
  ]
]
