-- ===== src/Tracker/Safety/Lines.antt =====
-- On lines with enough fields each loop over a file has a result.
use torrent_based_file_shari.Common.{
  ℕ, zero, suc, ◌≤◌, ◌<◌, ◌≡◌, refl, Option, some, List, [], ◌∷◌, arith, length, get_elem?, Text,
  eq_text, split, Table, insert, set_insert, lt_text, Bool-cases, inl, inr,
}
use torrent_based_file_shari.Tracker.Fetch.{space, load_online, load_groups}
use torrent_based_file_shari.Tracker.Files.{field, keep_other}
use torrent_based_file_shari.Tracker.Sharing.{keep_unless}
use torrent_based_file_shari.Tracker.Safety.Disk.{HaveFields}

-- A result, as the tactics can use it.
abbrev pub Has {ℓ} : {A : Type ℓ} → Option A → Type ℓ
Has {A = A} o = (a : A) × (o ≡ some a)

get_elem?_lt {ℓ} : {A : Type ℓ} (xs : List A) (i : ℕ) → i < length xs → Has (get_elem? xs i)
get_elem?_lt [] i h = absurd (omega arith)
get_elem?_lt (x ∷ xs) zero h = (x, refl)
get_elem?_lt (x ∷ xs) (suc i) h = get_elem?_lt xs i (omega arith)

pub Has-field : (n i : ℕ) (l : Text) → n ≤ length (split l space) → i < n → Has (field i l)
Has-field n i l h k = get_elem?_lt (split l space) i (omega arith)

pub Has-load_online :
    (t : List Text × Table (Text × Text)) (ls : List Text)
    → HaveFields 3 ls
    → Has (load_online t ls)
unfolding load_online
Has-load_online t [] h = (t, refl)
Has-load_online t (l ∷ ls) (h, hs) =
    let (a, ea) = Has-field 3 0 l h (omega arith) in
    let (b, eb) = Has-field 3 1 l h (omega arith) in
    let (c, ec) = Has-field 3 2 l h (omega arith) in
    let (r, er) = Has-load_online (set_insert lt_text a t.0, insert a (b, c) t.1) ls hs in
    (r, rw (ea, eb, ec, load_online) er)

pub Has-load_groups : (t : Table Text) (ls : List Text) → HaveFields 2 ls → Has (load_groups t ls)
unfolding load_groups
Has-load_groups t [] h = (t, refl)
Has-load_groups t (l ∷ ls) (h, hs) =
    let (a, ea) = Has-field 2 0 l h (omega arith) in
    let (b, eb) = Has-field 2 1 l h (omega arith) in
    let (r, er) = Has-load_groups (insert a b t) ls hs in (r, rw (ea, eb, load_groups) er)

-- The lines that are kept are lines of the file.
pub Has-keep_other :
    (n i : ℕ) (x : Text) (ls : List Text)
    → HaveFields n ls
    → i < n
    → (r : List Text) × (keep_other x i ls ≡ some r) × HaveFields n r
unfolding keep_other
Has-keep_other n i x [] h k = ([], refl, tt)
Has-keep_other n i x (l ∷ ls) (h, hs) k =
    let (f, e) = Has-field n i l h k in
    let (r, er, hr) = Has-keep_other n i x ls hs k in
    elim (Bool-cases (eq_text f x)) [
      | inl q ↦ (r, ground arith, hr)
      | inr q ↦ (l ∷ r, ground arith, (h, hr))
    ]

pub Has-keep_unless :
    (n i : ℕ) (x : Text) (j : ℕ) (y : Text) (ls : List Text)
    → HaveFields n ls
    → i < n
    → j < n
    → (r : List Text) × (keep_unless i x j y ls ≡ some r) × HaveFields n r
unfolding keep_unless
Has-keep_unless n i x j y [] h ki kj = ([], refl, tt)
Has-keep_unless n i x j y (l ∷ ls) (h, hs) ki kj =
    let (f, e) = Has-field n i l h ki in
    let (g, e') = Has-field n j l h kj in
    let (r, er, hr) = Has-keep_unless n i x j y ls hs ki kj in
    elim (Bool-cases (eq_text f x)) [
      | inl q ↦ elim (Bool-cases (eq_text g y)) [
        | inl q' ↦ (r, ground arith, hr)
        | inr q' ↦ (l ∷ r, ground arith, (h, hr))
      ]
      | inr q ↦ (l ∷ r, ground arith, (h, hr))
    ]
