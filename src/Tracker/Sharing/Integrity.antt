-- ===== src/Tracker/Sharing/Integrity.antt =====
-- In a group's list a file name stands for one hash, and a hash for one file name.
use torrent_based_file_shari.Common.{
  ◌≡◌, ◌≢◌, ◌↔◌, ◌⊎◌, sym, ap, ap₂, ◌∙◌, inl, inr, false, some, List, [], ◌∷◌, ◌++◌, arith, All,
  All-append, All-map, get_elem?, Text, eq_text, eq_text_refl, eq_of_eq_text, split, Bool-cases,
}
use torrent_based_file_shari.Common.Strings.Split.{Lacks, split-append, split-Lacks}
use torrent_based_file_shari.Tracker.Fetch.{space}
use torrent_based_file_shari.Tracker.Files.{field, name_of_hash, has_conflict}
use torrent_based_file_shari.Tracker.Downloads.{or_empty}
use torrent_based_file_shari.Tracker.Files.Deletion.{field_or_empty}
use torrent_based_file_shari.Tracker.Sharing.{shared_line}
use torrent_based_file_shari.Tracker.Safety.Disk.{HaveFields}
use torrent_based_file_shari.Tracker.Safety.Lines.{Has-field}

-- The hash and the file name on a line.
abbrev pub hash_of : Text → Text
hash_of l = field_or_empty 0 l

abbrev pub name_of : Text → Text
name_of l = field_or_empty 3 l

-- Two lines have one hash exactly if they have one name.
abbrev pub Agree : Text → Text → Type 0
Agree l l' = (hash_of l ≡ hash_of l') ↔ (name_of l ≡ name_of l')

-- Every two lines agree, and every line has a name.
abbrev pub IsConsistent : List Text → Type 0
IsConsistent [] = Unit
IsConsistent (l ∷ ls) = All (Agree l) ls × (name_of l ≢ []) × IsConsistent ls

pub IsConsistent-append :
    (ls : List Text) (l : Text)
    → IsConsistent ls
    → All (λ k. Agree k l) ls
    → name_of l ≢ []
    → IsConsistent (ls ++ l ∷ [])
IsConsistent-append [] l c a n = (tt, n, tt)
IsConsistent-append (k ∷ ls) l (ak, nk, c) (a, as') n =
    (All-append (Agree k) ls (l ∷ []) ak (a, tt), nk, IsConsistent-append ls l c as' n)

-- `CheckIntegrity` answers no only if every line with the name has the hash.
pub no_conflict :
    (h n : Text) (ls : List Text)
    → HaveFields 4 ls
    → has_conflict h n ls ≡ some false
    → All (λ l. name_of l ≡ n → hash_of l ≡ h) ls
unfolding has_conflict
no_conflict h n [] f e = tt
no_conflict h n (l ∷ ls) (f, fs) e =
    let (a, ea) = Has-field 4 0 l f (omega arith) in
    let (b, eb) = Has-field 4 3 l f (omega arith) in
    elim (Bool-cases (eq_text a h)) [
      | inl q ↦ (λ _. rw ea (eq_of_eq_text a h q), no_conflict h n ls fs (ground arith))
      | inr q ↦ elim (Bool-cases (eq_text b n)) [
        | inl q' ↦ absurd (ground arith)
        | inr q' ↦ (λ same. ground (arith, eq_text_refl n), no_conflict h n ls fs (ground arith))
      ]
    ]

-- What `GetGroupFileName` finds: no line has the hash, or all lines with it have the found name.
pub found_name :
    (h g : Text) (ls : List Text)
    → HaveFields 4 ls
    → IsConsistent ls
    → name_of_hash h ls ≡ some g
    → ((g ≡ []) × All (λ l. hash_of l ≢ h) ls)
      ⊎ ((g ≢ []) × All (λ l. hash_of l ≡ h → name_of l ≡ g) ls)
unfolding name_of_hash
found_name h g [] f c e = inl (ground arith, tt)
found_name h g (l ∷ ls) (f, fs) (agree, named, c) e =
    let (a, ea) = Has-field 4 0 l f (omega arith) in
    let (b, eb) = Has-field 4 3 l f (omega arith) in
    elim (Bool-cases (eq_text a h)) [
      | inl q ↦
          let ah : hash_of l ≡ h = rw ea (eq_of_eq_text a h q) in
          let bg : name_of l ≡ g = rw eb (ground arith) in
          inr (
            λ empty. named (bg ∙ empty),
            (λ _. bg, All-map (λ k ag same. sym (ag.0 (ah ∙ sym same)) ∙ bg) ls agree),
          )
      | inr q ↦
          let differs : hash_of l ≢ h = λ p. ground (arith, eq_text_refl h) in
          elim (found_name h g ls fs c (ground arith)) [
            | inl (empty, none_has) ↦ inl (empty, (differs, none_has))
            | inr (found, all_have) ↦ inr (found, (λ p. absurd (differs p), all_have))
          ]
    ]

-- The fields of the line that an upload adds.
module _ (hash size user name : Text) (h : Lacks space hash) (z : Lacks space size)
    (u : Lacks space user) (n : Lacks space name) where
  split-shared_line : split (shared_line hash size user name) space ≡ hash ∷ size ∷ user ∷ name ∷ []
  split-shared_line =
      split-append space hash _
      ∙ ap₂ ◌++◌ (split-Lacks space hash h) (
          split-append space size _
          ∙ ap₂ ◌++◌ (split-Lacks space size z) (
              split-append space user name
              ∙ ap₂ ◌++◌ (split-Lacks space user u) (split-Lacks space name n)))

  pub hash_of-shared_line : hash_of (shared_line hash size user name) ≡ hash
  hash_of-shared_line = ap (λ fs. or_empty (get_elem? fs 0)) split-shared_line

  pub name_of-shared_line : name_of (shared_line hash size user name) ≡ name
  name_of-shared_line = ap (λ fs. or_empty (get_elem? fs 3)) split-shared_line

  pub user_of-shared_line : field 2 (shared_line hash size user name) ≡ some user
  user_of-shared_line = ap (λ fs. get_elem? fs 2) split-shared_line
