-- ===== src/Peer/Download/Retries.antt =====
-- The rounds of `DownloadKernel`: how it ends, and what is true then.
use torrent_based_file_shari.Common.{
  ℕ, zero, suc, ◌+◌, ◌-◌, ◌%◌, ◌<◌, ◌≡◌, refl, ap, ◌∙◌, true, false, Option, none, some, List, [],
  ◌∷◌, ◌++◌, arith, leb, ltb, if◌then◌else◌, length, Bool-cases, Option-cases, inl, inr, get_elem?,
  Text, insert,
}
use torrent_based_file_shari.Peer.Pieces.{get_file_hash_small}
use torrent_based_file_shari.Peer.Download.{
  FileData, address, Local, Progress, running, gave_up, recorded, fault, chunks_of, send_chunk_line,
  receive, record_chunk, download_kernel,
}

-- The number of the seeder that is asked after `j` refusals.
abbrev pub nth_try : ℕ → ℕ → ℕ → ℕ
nth_try nseeders zero num = num
nth_try nseeders (suc j) num = nth_try nseeders j ((num + 1) % nseeders)

pub get_elem?-in : (xs : List Text) (i : ℕ) → i < length xs → (x : Text) × (get_elem? xs i ≡ some x)
get_elem?-in [] i l = absurd (omega arith)
get_elem?-in (x ∷ xs) zero l = (x, refl)
get_elem?-in (x ∷ xs) (suc i) l = get_elem?-in xs i (omega arith)

module _ (sha1 : Text → List ℕ) (dial : ℕ → Text × Text → Text → Option (List Text))
    (meta : FileData) (chunk : ℕ) where
  abbrev nseeders : ℕ
  nseeders = length meta.seeders

  -- Round `k` is with a seeder that cannot be reached.
  abbrev pub Refused : ℕ → ℕ → Type 0
  Refused k num =
      (seeder : Text)
      → get_elem? meta.seeders num ≡ some seeder
      → dial k (address meta seeder) (send_chunk_line meta chunk seeder) ≡ none

  pub same_call :
      {r r' k k' a a' : ℕ} (num : ℕ) (s : Local)
      → r ≡ r'
      → k ≡ k'
      → a ≡ a'
      → download_kernel sha1 dial meta chunk r k a num s
        ≡ download_kernel sha1 dial meta chunk r' k' a' num s
  same_call num s er ek ea = rw (er, ek, ea) refl

  -- After some refusals.
  pub download_kernel-Refused :
      (m rounds k attempts num : ℕ) (s : Local)
      → num < nseeders
      → attempts + m < nseeders
      → ((j : ℕ) → j < m → Refused (k + j) (nth_try nseeders j num))
      → (later : ℕ) × (later < nseeders)
        × (later ≡ nth_try nseeders m num)
        × (download_kernel sha1 dial meta chunk (m + rounds) k attempts num s
            ≡ download_kernel sha1 dial meta chunk rounds (k + m) (attempts + m) later s)
  unfolding download_kernel
  download_kernel-Refused zero rounds k attempts num s l b none_there =
      (num, l, refl, same_call _ _ (omega arith) (omega arith) (omega arith))
  download_kernel-Refused (suc m) rounds k attempts num s l b none_there =
      let (seeder, here) = get_elem?-in meta.seeders num l in
      let shut : dial k (address meta seeder) (send_chunk_line meta chunk seeder) ≡ none =
        ap (λ i. dial i (address meta seeder) (send_chunk_line meta chunk seeder)) (omega arith)
        ∙ none_there 0 (omega arith) seeder here in
      let more : leb nseeders (attempts + 1) ≡ false = ground arith in
      let (later, l', e, eq) =
        download_kernel-Refused m rounds (suc k) (attempts + 1) ((num + 1) % nseeders) s
          (omega arith) (omega arith)
          (λ j j_lt seeder' here'.
            ap (λ i. dial i (address meta seeder') (send_chunk_line meta chunk seeder'))
              (omega arith)
            ∙ none_there (suc j) (omega arith) seeder' here') in
      let one_more : suc m + rounds ≡ suc (m + rounds) = omega arith in
      let now : download_kernel sha1 dial meta chunk (suc (m + rounds)) k attempts num s
          ≡ download_kernel sha1 dial meta chunk (m + rounds) (suc k) (attempts + 1)
              ((num + 1) % nseeders) s =
        rw (here, shut, more, download_kernel) refl in
      (
        later,
        l',
        e,
        same_call _ _ one_more refl refl
            ∙ now
            ∙ eq
            ∙ same_call _ _ refl (omega arith) (omega arith),
      )

  -- If no connection is made at all, the thread for a piece gives up after exactly one attempt for each
  -- seeder, and changes nothing.
  pub download_kernel-gives_up :
      (rounds num : ℕ) (s : Local)
      → num < nseeders
      → ((k : ℕ) (a : Text × Text) (line : Text) → dial k a line ≡ none)
      → download_kernel sha1 dial meta chunk rounds 0 0 num s
        ≡ ((if ltb rounds nseeders then running else gave_up), s)
  unfolding download_kernel
  download_kernel-gives_up rounds num s l shut = elim (Bool-cases (ltb rounds nseeders)) [
    | inl few ↦
        let (later, l', e, eq) =
          download_kernel-Refused rounds 0 0 0 num s l (ground arith)
            (λ j j_lt seeder here. shut _ _ _) in
        rw few (same_call _ _ (omega arith) refl refl ∙ eq)
    | inr enough ↦
        let (later, l', e, eq) =
          download_kernel-Refused (nseeders - 1) (suc (rounds - nseeders)) 0 0 num s l (omega arith)
            (λ j j_lt seeder here. shut _ _ _) in
        let (seeder, here) = get_elem?-in meta.seeders later l' in
        let no_more : leb nseeders (0 + (nseeders - 1) + 1) ≡ true = ground arith in
        let last : download_kernel sha1 dial meta chunk (suc (rounds - nseeders))
              (0 + (nseeders - 1)) (0 + (nseeders - 1)) later s
            ≡ (gave_up, s) =
          rw
            (
              here,
              shut (0 + (nseeders - 1)) (address meta seeder) (send_chunk_line meta chunk seeder),
              no_more,
              download_kernel,
            )
            refl in
        rw enough (same_call _ _ (ground arith) refl refl ∙ eq ∙ last)
  ]

  -- What is true when a thread for a piece is at its end.
  abbrev pub Checked : Local → Progress × Local → Type 0
  Checked s (recorded, s') =
      (get_file_hash_small sha1 s'.file chunk meta.hash ≡ some true)
      × (s'.filechunks_map
          ≡ insert meta.name (chunks_of meta.name s.filechunks_map ++ chunk ∷ []) s.filechunks_map)
  Checked s (running, s') = s'.filechunks_map ≡ s.filechunks_map
  Checked s (gave_up, s') = s'.filechunks_map ≡ s.filechunks_map
  Checked s (fault, s') = s'.filechunks_map ≡ s.filechunks_map

  -- The thread for a piece adds the piece to `filechunks_map` at most once, at its end, and only if the
  -- file then passes the check of this piece against the hash. Whatever came back from the network.
  pub download_kernel-Checked :
      (rounds k attempts num : ℕ) (s : Local)
      → Checked s (download_kernel sha1 dial meta chunk rounds k attempts num s)
  unfolding download_kernel receive record_chunk
  download_kernel-Checked zero k attempts num s = refl
  download_kernel-Checked (suc rounds) k attempts num s =
      elim (Option-cases (get_elem? meta.seeders num)) [
        | inl e ↦ rw (e, download_kernel) refl
        | inr (seeder, e) ↦
            elim (Option-cases (dial k (address meta seeder) (send_chunk_line meta chunk seeder))) [
              | inl shut ↦ elim (Bool-cases (leb nseeders (attempts + 1))) [
                | inl last ↦ rw (e, shut, last, download_kernel) refl
                | inr more ↦
                    rw (e, shut, more, download_kernel)
                      (download_kernel-Checked rounds (suc k) (attempts + 1) ((num + 1) % nseeders)
                        s)
              ]
              | inr (pieces, open_) ↦
                  elim (Option-cases (
                    get_file_hash_small sha1 (receive sha1 dial meta chunk pieces s).file chunk
                      meta.hash)) [
                        | inl thrown ↦ rw (e, open_, thrown, download_kernel) refl
                        | inr (true, good) ↦ rw (e, open_, good, download_kernel) (good, refl)
                        | inr (false, bad) ↦
                            rw (e, open_, bad, download_kernel)
                              (download_kernel-Checked rounds (suc k) attempts num
                                (receive sha1 dial meta chunk pieces s))
                      ]
            ]
      ]
