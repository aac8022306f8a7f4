-- ===== src/Tracker/Safety/Searches.antt =====
-- On lines with enough fields the loops that look for a line have a result too.
use torrent_based_file_shari.Common.{
  refl, true, false, List, [], ◌∷◌, arith, if◌then◌else◌, Text, eq_text, Table, set_insert, lt_text,
  Bool-cases, inl, inr, mem_text,
}
use torrent_based_file_shari.Tracker.Files.{has_upload, name_of_hash, has_conflict}
use torrent_based_file_shari.Tracker.Sharing.{names_of, seeders_of, path_of}
use torrent_based_file_shari.Tracker.Downloads.{hashes_of, find_shared, has_path, insert_new}
use torrent_based_file_shari.Tracker.Safety.Disk.{HaveFields}
use torrent_based_file_shari.Tracker.Safety.Lines.{Has, Has-field}

module _ (x y : Text) where
  pub Has-has_upload : (ls : List Text) → HaveFields 4 ls → Has (has_upload x y ls)
  unfolding has_upload
  Has-has_upload [] h = (false, refl)
  Has-has_upload (l ∷ ls) (h, hs) =
      let (a, ea) = Has-field 4 0 l h (omega arith) in
      let (b, eb) = Has-field 4 2 l h (omega arith) in
      let (r, er) = Has-has_upload ls hs in
      elim (Bool-cases (eq_text a x)) [
        | inl q ↦ elim (Bool-cases (eq_text b y)) [
          | inl q' ↦ (true, ground arith)
          | inr q' ↦ (r, ground arith)
        ]
        | inr q ↦ (r, ground arith)
      ]

  pub Has-name_of_hash : (ls : List Text) → HaveFields 4 ls → Has (name_of_hash x ls)
  unfolding name_of_hash
  Has-name_of_hash [] h = ([], refl)
  Has-name_of_hash (l ∷ ls) (h, hs) =
      let (a, ea) = Has-field 4 0 l h (omega arith) in
      let (b, eb) = Has-field 4 3 l h (omega arith) in
      let (r, er) = Has-name_of_hash ls hs in
      elim (Bool-cases (eq_text a x)) [ inl q ↦ (b, ground arith) | inr q ↦ (r, ground arith) ]

  pub Has-has_conflict : (ls : List Text) → HaveFields 4 ls → Has (has_conflict x y ls)
  unfolding has_conflict
  Has-has_conflict [] h = (false, refl)
  Has-has_conflict (l ∷ ls) (h, hs) =
      let (a, ea) = Has-field 4 0 l h (omega arith) in
      let (b, eb) = Has-field 4 3 l h (omega arith) in
      let (r, er) = Has-has_conflict ls hs in
      elim (Bool-cases (eq_text a x)) [
        | inl q ↦ (r, ground arith)
        | inr q ↦ elim (Bool-cases (eq_text b y)) [
          | inl q' ↦ (true, ground arith)
          | inr q' ↦ (r, ground arith)
        ]
      ]

  pub Has-path_of : (ls : List Text) → HaveFields 3 ls → Has (path_of x y ls)
  unfolding path_of
  Has-path_of [] h = ([], refl)
  Has-path_of (l ∷ ls) (h, hs) =
      let (a, ea) = Has-field 3 0 l h (omega arith) in
      let (b, eb) = Has-field 3 1 l h (omega arith) in
      let (c, ec) = Has-field 3 2 l h (omega arith) in
      let (r, er) = Has-path_of ls hs in
      elim (Bool-cases (eq_text a x)) [
        | inl q ↦ elim (Bool-cases (eq_text b y)) [
          | inl q' ↦ (c, ground arith)
          | inr q' ↦ (r, ground arith)
        ]
        | inr q ↦ (r, ground arith)
      ]

  pub Has-find_shared : (ls : List Text) → HaveFields 4 ls → Has (find_shared x ls)
  unfolding find_shared
  Has-find_shared [] h = (([], []), refl)
  Has-find_shared (l ∷ ls) (h, hs) =
      let (a, ea) = Has-field 4 3 l h (omega arith) in
      let (b, eb) = Has-field 4 0 l h (omega arith) in
      let (c, ec) = Has-field 4 1 l h (omega arith) in
      let (r, er) = Has-find_shared ls hs in
      elim (Bool-cases (eq_text a x)) [ inl q ↦ ((b, c), ground arith) | inr q ↦ (r, ground arith) ]

  pub Has-has_path : (ls : List Text) → HaveFields 3 ls → Has (has_path x ls)
  unfolding has_path
  Has-has_path [] h = (false, refl)
  Has-has_path (l ∷ ls) (h, hs) =
      let (a, ea) = Has-field 3 1 l h (omega arith) in
      let (r, er) = Has-has_path ls hs in
      elim (Bool-cases (eq_text a x)) [ inl q ↦ (true, ground arith) | inr q ↦ (r, ground arith) ]

pub Has-names_of : (t : List Text) (ls : List Text) → HaveFields 4 ls → Has (names_of t ls)
unfolding names_of
Has-names_of t [] h = (t, refl)
Has-names_of t (l ∷ ls) (h, hs) =
    let (a, ea) = Has-field 4 3 l h (omega arith) in
    let (r, er) = Has-names_of (set_insert lt_text a t) ls hs in (r, rw (ea, names_of) er)

pub Has-hashes_of : (t : Table Text) (ls : List Text) → HaveFields 4 ls → Has (hashes_of t ls)
unfolding hashes_of
Has-hashes_of t [] h = (t, refl)
Has-hashes_of t (l ∷ ls) (h, hs) =
    let (a, ea) = Has-field 4 3 l h (omega arith) in
    let (b, eb) = Has-field 4 0 l h (omega arith) in
    let (r, er) = Has-hashes_of (insert_new a b t) ls hs in (r, rw (ea, eb, hashes_of) er)

pub Has-seeders_of :
    (name : Text) (online : List Text) (acc : Text × List Text) (ls : List Text)
    → HaveFields 4 ls
    → Has (seeders_of name online acc ls)
unfolding seeders_of
Has-seeders_of name online acc [] h = (acc, refl)
Has-seeders_of name online acc (l ∷ ls) (h, hs) =
    let (a, ea) = Has-field 4 3 l h (omega arith) in
    let (b, eb) = Has-field 4 1 l h (omega arith) in
    let (c, ec) = Has-field 4 2 l h (omega arith) in
    elim (Bool-cases (eq_text a name)) [
      | inl q ↦
          let (r, er) =
            Has-seeders_of name online
              (b, if mem_text c online then set_insert lt_text c acc.1 else acc.1) ls hs in
          (r, ground arith)
      | inr q ↦ let (r, er) = Has-seeders_of name online acc ls hs in (r, ground arith)
    ]
