-- ===== src/Peer/Download/Assigned.antt =====
-- Which seeder the pieces of a download are first asked of.
use torrent_based_file_shari.Common.{
  ℕ, zero, suc, ◌+◌, ◌-◌, ◌%◌, ◌^◌, ◌≤◌, ◌<◌, ◌≡◌, refl, sym, ap, ◌∙◌, ◌⊎◌, inl, inr, Bool, true,
  false, Option, none, some, List, [], ◌∷◌, arith, ◌==◌, if◌then◌else◌, length, get_elem?, any, All,
  All-map, Text, Table, lookup, Bool-cases, Option-cases,
}
use torrent_based_file_shari.Common.Decimal.{ℤ, pos, to_string, atoi, atoi-to_string}
use torrent_based_file_shari.Common.Strings.Words.{IsWord}
use torrent_based_file_shari.Peer.Choice.{Cell, populate}
use torrent_based_file_shari.Peer.Choice.Holders.{blank_rows, holder, holders, decide-populate}
use torrent_based_file_shari.Peer.Download.{
  FileData, calc_chunk, nchunks_of, chunk_count, in_turn, get_chunks,
}
use torrent_based_file_shari.Peer.Download.Numbers.{has_of}
use torrent_based_file_shari.Peer.Download.Retries.{get_elem?-in}
use torrent_based_file_shari.Peer.Download.Asked.{
  has_piece, any-has_of, Below, Fits-Below, Answers, offered, partial_in, offers_of_lem,
  InRange-offered,
}
use torrent_based_file_shari.Peer.Download.Decided.{
  Offers, AllDiffer, RearrangesDiffering, InRange-sort, same_rows, gives, holder-some, holder-none,
  populate-first, length-in_turn, length-holders, length-offered,
}

no_entry : (o : Option (List ℕ)) → (has_of 0 o).1 ≡ false → o ≡ none
no_entry none f = refl
no_entry (some []) f = let bad : true ≡ false = f in cc
no_entry (some (c ∷ cs)) f = let bad : true ≡ false = f in cc

both_false : (b c : Bool) → (if b then true else c) ≡ false → (b ≡ false) × (c ≡ false)
both_false true c f = let bad : true ≡ false = f in cc
both_false false c f = (refl, f)

module _ (tables : Text → Table (List ℕ)) (meta : FileData) where
  -- The piece `c` is asked of a seeder that has it; -1 stands where none has it.
  abbrev pub AskedWell : ℕ → Cell → Type 0
  AskedWell c (some k) =
      (s : Text) × (get_elem? meta.seeders k ≡ some s)
      × (has_piece c (lookup meta.name (tables s)) ≡ true)
  AskedWell c none = All (λ s. has_piece c (lookup meta.name (tables s)) ≡ false) meta.seeders

  abbrev pub AllAskedWell : ℕ → List Cell → Type 0
  AllAskedWell c [] = Unit
  AllAskedWell c (cell ∷ cells) = AskedWell c cell × AllAskedWell (suc c) cells

  offered-gives :
      (nchunks c k i : ℕ) (ss : List Text)
      → c < nchunks
      → any (gives (suc c) k) (offered tables meta nchunks i ss) ≡ true
      → (s : Text) × (i ≤ k)
        × (get_elem? ss (k - i) ≡ some s)
        × (has_piece c (lookup meta.name (tables s)) ≡ true)
  offered-gives nchunks c k i [] l h = absurd (ground (arith, h))
  offered-gives nchunks c k i (s ∷ ss) l h =
      elim (Bool-cases (gives (suc c) k (i, (has_of nchunks (lookup meta.name (tables s))).0))) [
        | inl b ↦
            let same : i ≡ k = ground (arith, b) in
            let first : k - i ≡ 0 = omega arith in
            (
              s,
              omega arith,
              rw first refl,
              sym (any-has_of nchunks c (lookup meta.name (tables s)) l) ∙ ground (arith, b),
            )
        | inr b ↦
            let (s', l', e, p) = offered-gives nchunks c k (suc i) ss l (rw b at h) in
            let next : k - i ≡ suc (k - suc i) = omega arith in (s', omega arith, rw next e, p)
      ]

  offered-lacks :
      (nchunks c i : ℕ) (ss : List Text)
      → c < nchunks
      → any (λ e. any (λ d. d == suc c) e.1) (offered tables meta nchunks i ss) ≡ false
      → All (λ s. has_piece c (lookup meta.name (tables s)) ≡ false) ss
  offered-lacks nchunks c i [] l h = tt
  offered-lacks nchunks c i (s ∷ ss) l h =
      elim (Bool-cases (any (λ d. d == suc c) (has_of nchunks (lookup meta.name (tables s))).0)) [
        | inl b ↦ absurd (ground (arith, b, h))
        | inr b ↦ (
          sym (any-has_of nchunks c (lookup meta.name (tables s)) l) ∙ b,
          offered-lacks nchunks c (suc i) ss l (rw b at h),
        )
      ]

  holders-AskedWell :
      (nchunks c n : ℕ) (w : Offers)
      → ((p : ℕ × List ℕ → Bool) → any p w ≡ any p (offered tables meta nchunks 0 meta.seeders))
      → c + n ≤ nchunks
      → AllAskedWell c (holders (suc c) n w)
  holders-AskedWell nchunks c zero w same l = tt
  holders-AskedWell nchunks c (suc n) w same l = (
    first (Option-cases (holder (suc c) w)),
    holders-AskedWell nchunks (suc c) n w same (omega arith),
  )
    where
      first :
          (holder (suc c) w ≡ none) ⊎ ((k : ℕ) × (holder (suc c) w ≡ some k))
          → AskedWell c (holder (suc c) w)
      first (inl e) = rw e (
          offered-lacks nchunks c 0 meta.seeders (omega arith)
            (sym (same (λ e. any (λ d. d == suc c) e.1)) ∙ holder-none (suc c) w e))
      first (inr (k, e)) =
          let (s, l', there, p) =
            offered-gives nchunks c k 0 meta.seeders (omega arith)
              (sym (same (gives (suc c) k)) ∙ holder-some (suc c) k w e) in
          let whole : k ≡ k - 0 = omega arith in
          rw e (s, ap (get_elem? meta.seeders) whole ∙ there, p)

  -- Where no answer names pieces, every seeder has the whole file.
  all_whole :
      (ss : List Text) (k : ℕ) (s : Text)
      → partial_in tables meta ss ≡ false
      → get_elem? ss k ≡ some s
      → lookup meta.name (tables s) ≡ none
  all_whole [] k s h e = let bad : none ≡ some s = e in cc
  all_whole (x ∷ ss) zero s h e =
      let same : x ≡ s = cc in
      ap (λ t. lookup meta.name (tables t)) (sym same)
      ∙ no_entry _ (both_false (has_of 0 (lookup meta.name (tables x))).1 _ h).0
  all_whole (x ∷ ss) (suc k) s h e =
      all_whole ss k s (both_false (has_of 0 (lookup meta.name (tables x))).1 _ h).1 e

  in_turn-AskedWell :
      (c num n : ℕ)
      → partial_in tables meta meta.seeders ≡ false
      → num < length meta.seeders
      → AllAskedWell c (in_turn (length meta.seeders) num n)
  unfolding in_turn
  in_turn-AskedWell c num zero h l = tt
  in_turn-AskedWell c num (suc n) h l =
      let (s, here) = get_elem?-in meta.seeders num l in
      (
        (s, here, ap (has_piece c) (all_whole meta.seeders num s h here)),
        in_turn-AskedWell (suc c) ((num + 1) % length meta.seeders) n h (omega arith),
      )

-- If there are seeders, every one of them can be reached and answers as `ClientServerKernel` does, from a
-- table that names pieces of this file only, the size is below 2^31 and the name is one word, then
-- `GetChunks` sets up exactly one thread for each piece, and each is first asked of a seeder that has the
-- piece; -1 stands only for a piece that no seeder has. Two further conditions: no two of the seeders
-- name the same number of pieces, since on such seeders `my_comp` is no strict order and `std::sort` promises
-- nothing; and on others `std::sort` leaves the same elements, in whatever order.
pub get_chunks-AllAskedWell :
    (ask_peer : Text × Text → Text → Option Text) (connects : Text × ℤ → Bool)
    (ask : Text × ℤ → Text → Option Text) (files : Text → Option Text)
    (tables : Text → Table (List ℕ)) (meta : FileData) (sort : Offers → Offers) (size : ℕ)
    → RearrangesDiffering sort
    → IsWord meta.name
    → size < 2 ^ 31
    → meta.size ≡ to_string size
    → 0 < length meta.seeders
    → Answers ask_peer connects ask files tables meta meta.seeders
    → All (λ s. Below (nchunks_of size) (lookup meta.name (tables s))) meta.seeders
    → AllDiffer (offered tables meta (nchunks_of size) 0 meta.seeders)
    → (cells : List Cell) × (get_chunks ask_peer sort meta ≡ some cells)
      × (length cells ≡ nchunks_of size)
      × AllAskedWell tables meta 0 cells
unfolding get_chunks calc_chunk chunk_count
get_chunks-AllAskedWell ask_peer connects ask files tables meta sort size rearranges w fits e pos_
      answers below differ =
    let n = nchunks_of size in
    let v = offered tables meta n 0 meta.seeders in
    let (keeps, stays) = rearranges v differ in
    let small : n < 2 ^ 31 = ground arith in
    let told =
      offers_of_lem ask_peer connects ask files tables meta n 0 meta.seeders w answers
        (All-map (λ s b. Fits-Below n _ small b) meta.seeders below) in
    let in_range =
      InRange-sort sort n v (keeps, stays) (InRange-offered tables meta n 0 meta.seeders below) in
    let (m, populated', decided) = decide-populate n (sort v) in_range in
    let populated : populate (blank_rows n v) (sort v) ≡ some m =
      ap (λ r. populate r (sort v)) (same_rows n v (sort v) (sym keeps)) ∙ populated' in
    let (row, first) =
      populate-first n (sort v) m
        (omega (arith, keeps, length-offered tables meta n 0 meta.seeders)) populated' in
    let number : atoi meta.size ≡ some (pos size) = ap atoi e ∙ atoi-to_string size fits in
    elim (Bool-cases (partial_in tables meta meta.seeders)) [
      | inl some_lack ↦ (
        holders 1 n (sort v),
        rw (number, told, populated, first, decided, some_lack) refl,
        length-holders 1 n (sort v),
        holders-AskedWell tables meta n 0 n (sort v) stays (omega arith),
      )
      | inr all_have ↦ (
        in_turn (length meta.seeders) 0 n,
        rw (number, told, populated, first, decided, all_have) refl,
        length-in_turn (length meta.seeders) 0 n,
        in_turn-AskedWell tables meta 0 0 n all_have pos_,
      )
    ]
