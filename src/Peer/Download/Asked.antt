-- ===== src/Peer/Download/Asked.antt =====
-- `CalcChunk` and `GetChunks` with peers that answer as `ClientServerKernel` does.
use torrent_based_file_shari.Common.{
  ℕ, zero, suc, ◌+◌, ◌^◌, ◌≤◌, ◌<◌, ◌≡◌, refl, ap, ◌∙◌, inl, inr, Bool, true, false, Option, none,
  some, List, [], ◌∷◌, arith, ◌==◌, if◌then◌else◌, any, All, All-map, map, Text, codes, eq_text,
  words, Table, lookup, Bool-cases,
}
use torrent_based_file_shari.Common.Decimal.{ℤ}
use torrent_based_file_shari.Common.Strings.Words.{IsWord, words-one, words-more}
use torrent_based_file_shari.Peer.Agreement.{is_word_sound}
use torrent_based_file_shari.Peer.Server.{get_chunk_info, client_server_kernel}
use torrent_based_file_shari.Peer.Choice.Holders.{InRange}
use torrent_based_file_shari.Peer.Download.{
  FileData, address, count_from, chunk_numbers_line, offers_of,
}
use torrent_based_file_shari.Peer.Download.Numbers.{has_of, Fits, offer-get_chunk_info}

-- What another peer sends back for `chunk_numbers`.
client_server_kernel-chunk_numbers :
    (connects : Text × ℤ → Bool) (ask : Text × ℤ → Text → Option Text) (files : Text → Option Text)
    (filechunks_map : Table (List ℕ)) (meta : FileData)
    → IsWord meta.name
    → client_server_kernel connects ask files filechunks_map (chunk_numbers_line meta)
      ≡ some (get_chunk_info filechunks_map meta.name)
unfolding client_server_kernel eq_text
client_server_kernel-chunk_numbers connects ask files filechunks_map meta h =
    let read : words (chunk_numbers_line meta) ≡ codes "chunk_numbers" ∷ meta.name ∷ [] =
      words-more (codes "chunk_numbers") meta.name (is_word_sound (codes "chunk_numbers") refl)
      ∙ ap (λ ws. codes "chunk_numbers" ∷ ws) (words-one meta.name h) in
    rw read refl

-- Whether a table has the piece `c` of a file.
abbrev pub has_piece : ℕ → Option (List ℕ) → Bool
has_piece c none = true
has_piece c (some cs) = any (λ d. d == c) cs

any-count_from : (c i n : ℕ) → i ≤ c → c < i + n → any (λ d. d == c) (count_from i n) ≡ true
any-count_from c i zero l u = absurd (omega arith)
any-count_from c i (suc n) l u = elim (Bool-cases (i == c)) [
  | inl e ↦ rw e refl
  | inr e ↦ rw e (any-count_from c (suc i) n (ground arith) (omega arith))
]

any-map-suc : (c : ℕ) (cs : List ℕ) → any (λ d. d == suc c) (map suc cs) ≡ any (λ d. d == c) cs
any-map-suc c [] = refl
any-map-suc c (d ∷ cs) =
    let same : (suc d == suc c) ≡ (d == c) = ground arith in rw (same, any-map-suc c cs) refl

pub any-has_of :
    (nchunks c : ℕ) (entry : Option (List ℕ))
    → c < nchunks
    → any (λ d. d == suc c) (has_of nchunks entry).0 ≡ has_piece c entry
any-has_of nchunks c none l = any-count_from (suc c) 1 nchunks (omega arith) (omega arith)
any-has_of nchunks c (some []) l = refl
any-has_of nchunks c (some (d ∷ cs)) l = any-map-suc c (d ∷ cs)

-- The pieces of a table lie in the file.
abbrev pub Below : ℕ → Option (List ℕ) → Type 0
Below nchunks none = Unit
Below nchunks (some cs) = All (λ c. c < nchunks) cs

InRange-count_from :
    (nchunks i n : ℕ)
    → 1 ≤ i
    → i + n ≤ suc nchunks
    → All (λ j. (1 ≤ j) × (j ≤ nchunks)) (count_from i n)
InRange-count_from nchunks i zero l u = tt
InRange-count_from nchunks i (suc n) l u =
    ((l, omega arith), InRange-count_from nchunks (suc i) n (omega arith) (omega arith))

InRange-map-suc :
    (nchunks : ℕ) (cs : List ℕ)
    → All (λ c. c < nchunks) cs
    → All (λ j. (1 ≤ j) × (j ≤ nchunks)) (map suc cs)
InRange-map-suc nchunks [] h = tt
InRange-map-suc nchunks (c ∷ cs) (hc, h) =
    ((omega arith, omega arith), InRange-map-suc nchunks cs h)

InRange-has_of :
    (nchunks seeder : ℕ) (entry : Option (List ℕ))
    → Below nchunks entry
    → InRange nchunks (seeder, (has_of nchunks entry).0)
InRange-has_of nchunks seeder none h =
    InRange-count_from nchunks 1 nchunks (omega arith) (omega arith)
InRange-has_of nchunks seeder (some []) h = tt
InRange-has_of nchunks seeder (some (c ∷ cs)) h = InRange-map-suc nchunks (c ∷ cs) h

pub Fits-Below :
    (nchunks : ℕ) (entry : Option (List ℕ)) → nchunks < 2 ^ 31 → Below nchunks entry → Fits entry
Fits-Below nchunks none l h = tt
Fits-Below nchunks (some cs) l h = All-map (λ c b. omega (arith, b)) cs h

module _ (tables : Text → Table (List ℕ)) (meta : FileData) where
  abbrev pub entry : Text → Option (List ℕ)
  entry s = lookup meta.name (tables s)

  abbrev pub offered : ℕ → ℕ → List Text → List (ℕ × List ℕ)
  offered nchunks i [] = []
  offered nchunks i (s ∷ ss) = (i, (has_of nchunks (entry s)).0) ∷ offered nchunks (suc i) ss

  abbrev pub partial_in : List Text → Bool
  partial_in [] = false
  partial_in (s ∷ ss) = if (has_of 0 (entry s)).1 then true else partial_in ss

  same_flag : (nchunks : ℕ) (o : Option (List ℕ)) → (has_of nchunks o).1 ≡ (has_of 0 o).1
  same_flag nchunks none = refl
  same_flag nchunks (some []) = refl
  same_flag nchunks (some (c ∷ cs)) = refl

  pub InRange-offered :
      (nchunks i : ℕ) (ss : List Text)
      → All (λ s. Below nchunks (entry s)) ss
      → All (InRange nchunks) (offered nchunks i ss)
  InRange-offered nchunks i [] h = tt
  InRange-offered nchunks i (s ∷ ss) (hs, h) =
      (InRange-has_of nchunks i (entry s) hs, InRange-offered nchunks (suc i) ss h)

module _ (ask_peer : Text × Text → Text → Option Text) (connects : Text × ℤ → Bool)
    (ask : Text × ℤ → Text → Option Text) (files : Text → Option Text)
    (tables : Text → Table (List ℕ)) (meta : FileData) where
  -- Each seeder can be reached and answers from its table.
  abbrev pub Answers : List Text → Type 0
  Answers = All (λ s.
      ask_peer (address meta s) (chunk_numbers_line meta)
      ≡ client_server_kernel connects ask files (tables s) (chunk_numbers_line meta))

  pub offers_of_lem :
      (nchunks i : ℕ) (ss : List Text)
      → IsWord meta.name
      → Answers ss
      → All (λ s. Fits (entry tables meta s)) ss
      → offers_of ask_peer meta nchunks i ss
        ≡ some (offered tables meta nchunks i ss, partial_in tables meta ss)
  unfolding offers_of
  offers_of_lem nchunks i [] w a f = refl
  offers_of_lem nchunks i (s ∷ ss) w (as', a) (fs, f) =
      rw
        (
          as',
          client_server_kernel-chunk_numbers connects ask files (tables s) meta w,
          offer-get_chunk_info nchunks (tables s) meta.name fs,
          offers_of_lem nchunks (suc i) ss w a f,
          same_flag tables meta nchunks (entry tables meta s),
        )
        refl
