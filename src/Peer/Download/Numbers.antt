-- ===== src/Peer/Download/Numbers.antt =====
-- The answer to `chunk_numbers` on its way from the one peer's table to the other peer's matrix.
use torrent_based_file_shari.Common.{
  ℕ, suc, ◌-◌, ◌^◌, ◌<◌, ◌≡◌, ◌≢◌, refl, sym, ap, ◌∙◌, inl, inr, Bool, true, false, Option, none,
  some, List, [], ◌∷◌, ◌++◌, append_assoc, arith, length, length-append, take, take-append_self,
  All, All-map, map, Text, codes, eq_text, eq_of_eq_text, split, each_with, Table, lookup,
  Bool-cases,
}
use torrent_based_file_shari.Common.Decimal.{
  to_string, atoi-to_string, Digit, to_string-Digit, to_string-ne-nil,
}
use torrent_based_file_shari.Common.Strings.Split.{Lacks, split-append, split-Lacks}
use torrent_based_file_shari.Peer.Server.{drop_last, chunk_list, get_chunk_info}
use torrent_based_file_shari.Peer.Download.{count_from, columns_of, offer}

-- Numbers, with a space between two of them.
abbrev spaced : ℕ → List ℕ → Text
spaced c [] = to_string c
spaced c (d ∷ ds) = to_string c ++ 32 ∷ spaced d ds

each_with-spaced :
    (c : ℕ) (cs : List ℕ) → each_with (codes " ") (map to_string (c ∷ cs)) ≡ spaced c cs ++ 32 ∷ []
each_with-spaced c [] = refl
each_with-spaced c (d ∷ ds) =
    ap (λ t. to_string c ++ (32 ∷ t)) (each_with-spaced d ds)
    ∙ sym (append_assoc (to_string c) (32 ∷ spaced d ds) (32 ∷ []))

pub drop_last-append : (t : Text) (c : ℕ) → drop_last (t ++ c ∷ []) ≡ t
drop_last-append t c =
    let shorter : length (t ++ c ∷ []) - 1 ≡ length t = omega (arith, length-append t (c ∷ [])) in
    ap (λ n. take n (t ++ c ∷ [])) shorter ∙ take-append_self t (c ∷ [])

chunk_list_lem : (c : ℕ) (cs : List ℕ) → chunk_list (c ∷ cs) ≡ spaced c cs
chunk_list_lem c cs = ap drop_last (each_with-spaced c cs) ∙ drop_last-append (spaced c cs) 32

pub Digit-Lacks : (t : Text) → All Digit t → Lacks 32 t
Digit-Lacks t h = All-map (λ d b. ground (arith, b)) t h

split-spaced : (c : ℕ) (cs : List ℕ) → split (spaced c cs) 32 ≡ map to_string (c ∷ cs)
split-spaced c [] = split-Lacks 32 (to_string c) (Digit-Lacks _ (to_string-Digit c))
split-spaced c (d ∷ ds) =
    split-append 32 (to_string c) (spaced d ds)
    ∙ ap (λ l. l ++ split (spaced d ds) 32)
        (split-Lacks 32 (to_string c) (Digit-Lacks _ (to_string-Digit c)))
    ∙ ap (λ l. to_string c ∷ l) (split-spaced d ds)

columns_of_lem :
    (cs : List ℕ) → All (λ c. c < 2 ^ 31) cs → columns_of (map to_string cs) ≡ some (map suc cs)
unfolding columns_of
columns_of_lem [] h = refl
columns_of_lem (c ∷ cs) (hc, h) = rw (atoi-to_string c hc, columns_of_lem cs h) refl

-- It is not one of the two answers in words.
first_char : (c : ℕ) (cs : List ℕ) → (d : ℕ) × (rest : Text) × Digit d × (spaced c cs ≡ d ∷ rest)
first_char c cs = split_first (to_string c) (to_string-ne-nil c) (to_string-Digit c) cs refl
  where
    split_first :
        (t : Text)
        → t ≢ []
        → All Digit t
        → (cs : List ℕ) → to_string c ≡ t
        → (d : ℕ) × (rest : Text) × Digit d × (spaced c cs ≡ d ∷ rest)
    split_first [] n h cs e = absurd (n refl)
    split_first (d ∷ t) n (hd, h) [] e = (d, t, hd, e)
    split_first (d ∷ t) n (hd, h) (x ∷ xs) e =
        (d, t ++ 32 ∷ spaced x xs, hd, ap (λ u. u ++ 32 ∷ spaced x xs) e)

not_in_words : (c : ℕ) (cs : List ℕ) (w : Text) → eq_text (spaced c cs) (45 ∷ w) ≡ false
not_in_words c cs w = elim (Bool-cases (eq_text (spaced c cs) (45 ∷ w))) [
  | inr e ↦ e
  | inl e ↦
      let (d, rest, hd, e') = first_char c cs in
      let same : d ∷ rest ≡ 45 ∷ w = sym e' ∙ eq_of_eq_text _ _ e in
      let head : d ≡ 45 = cc in absurd (omega (arith, hd.0))
]

-- What a table says of a file: no entry stands for the whole file.
abbrev pub has_of : ℕ → Option (List ℕ) → List ℕ × Bool
has_of nchunks none = (count_from 1 nchunks, false)
has_of nchunks (some []) = ([], true)
has_of nchunks (some (c ∷ cs)) = (map suc (c ∷ cs), true)

abbrev pub Fits : Option (List ℕ) → Type 0
Fits none = Unit
Fits (some cs) = All (λ c. c < 2 ^ 31) cs

offer-entry :
    (nchunks : ℕ) (entry : Option (List ℕ))
    → Fits entry
    → offer nchunks (elim entry [ none ↦ codes "-1" | some chunks ↦ chunk_list chunks ])
      ≡ some (has_of nchunks entry)
unfolding offer eq_text
offer-entry nchunks none h = refl
offer-entry nchunks (some []) h = refl
offer-entry nchunks (some (c ∷ cs)) h =
    rw
      (
        chunk_list_lem c cs,
        not_in_words c cs (codes "1"),
        not_in_words c cs (codes "2"),
        split-spaced c cs,
        columns_of_lem (c ∷ cs) h,
      )
      refl

pub offer-get_chunk_info :
    (nchunks : ℕ) (filechunks_map : Table (List ℕ)) (name : Text)
    → Fits (lookup name filechunks_map)
    → offer nchunks (get_chunk_info filechunks_map name)
      ≡ some (has_of nchunks (lookup name filechunks_map))
unfolding get_chunk_info
offer-get_chunk_info nchunks filechunks_map name h =
    offer-entry nchunks (lookup name filechunks_map) h
