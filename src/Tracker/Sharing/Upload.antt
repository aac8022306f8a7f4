-- ===== src/Tracker/Sharing/Upload.antt =====
-- `GroupFileUpload` keeps a group's list consistent.
use torrent_based_file_shari.Common.{
  ℕ, ◌≡◌, ◌≢◌, refl, sym, ap, ◌∙◌, subst, inl, inr, false, some, List, [], ◌∷◌, ◌++◌, arith, All,
  All-map, All-zip, All-get_elem?, if◌then◌else◌, Text, eq_text, eq_text_refl, split, Bool-cases,
}
use torrent_based_file_shari.Common.Strings.Split.{Lacks, split-fields}
use torrent_based_file_shari.Tracker.State.{
  Disk, lines, append_line, shared_file, user_file, Tracker,
}
use torrent_based_file_shari.Tracker.Fetch.{space}
use torrent_based_file_shari.Tracker.Files.{
  field, name_of_hash, has_conflict, check_group_files, get_group_file_name, check_integrity,
}
use torrent_based_file_shari.Tracker.Sharing.{
  shared_line, path_line, nonempty_or, share, group_file_upload,
}
use torrent_based_file_shari.Tracker.Sharing.Integrity.{
  hash_of, name_of, IsConsistent, Agree, IsConsistent-append, no_conflict, found_name,
  hash_of-shared_line, name_of-shared_line,
}
use torrent_based_file_shari.Tracker.Safety.Rules.{
  Runs, Runs-get, Runs-pure, Runs-when, Runs-on_disk, Runs-sync, Runs-search,
}
use torrent_based_file_shari.Tracker.Safety.Disk.{HaveFields, lines-write}
use torrent_based_file_shari.Tracker.Safety.Lines.{Has-field}
use torrent_based_file_shari.Tracker.Safety.Searches.{
  Has-has_upload, Has-name_of_hash, Has-has_conflict,
}
use torrent_based_file_shari.Tracker.Safety.Fetching.{Exists-write, Exists-write_self, Runs-members}

field-Lacks : (i : ℕ) (l a : Text) → field i l ≡ some a → Lacks space a
field-Lacks i l a e = All-get_elem? (Lacks space) (split l space) i a (split-fields space l) e

name_of_hash-Lacks :
    (h g : Text) (ls : List Text) → HaveFields 4 ls → name_of_hash h ls ≡ some g → Lacks space g
unfolding name_of_hash
name_of_hash-Lacks h g [] f e = let p : [] ≡ g = cc in subst (Lacks space) p tt
name_of_hash-Lacks h g (l ∷ ls) (f, fs) e =
    let (a, ea) = Has-field 4 0 l f (omega arith) in
    elim (Bool-cases (eq_text a h)) [
      | inl q ↦ field-Lacks 3 l g (ground arith)
      | inr q ↦ name_of_hash-Lacks h g ls fs (ground arith)
    ]

module _ (hash name given : Text) (ls : List Text) (f : HaveFields 4 ls) (c : IsConsistent ls)
    (named : name ≢ []) (e : name_of_hash hash ls ≡ some given) where
  -- The name under which the file is listed is not empty.
  chosen-ne-nil : nonempty_or given name ≢ []
  chosen-ne-nil = go given refl
    where
      go : (g : Text) → g ≡ given → nonempty_or g name ≢ []
      go [] _ = named
      go (x ∷ xs) _ = λ q. cc

  chosen_found : given ≢ [] → nonempty_or given name ≡ given
  chosen_found = go given
    where
      go : (g : Text) → g ≢ [] → nonempty_or g name ≡ g
      go [] h = absurd (h refl)
      go (x ∷ xs) h = refl

  -- A line with the file's hash and the chosen name agrees with every line that is there.
  chosen-Agree :
      (l : Text)
      → has_conflict hash (nonempty_or given name) ls ≡ some false
      → hash_of l ≡ hash
      → name_of l ≡ nonempty_or given name
      → All (λ k. Agree k l) ls
  chosen-Agree l free hl nl =
      All-zip (λ k p q. (λ same. p (same ∙ hl) ∙ sym nl, λ same. q (same ∙ nl) ∙ sym hl)) ls to_name
        (no_conflict hash (nonempty_or given name) ls f free)
    where
      to_name : All (λ k. hash_of k ≡ hash → name_of k ≡ nonempty_or given name) ls
      to_name = elim (found_name hash given ls f c e) [
        | inl (_, none_has) ↦ All-map (λ k n p. absurd (n p)) ls none_has
        | inr (found, all_have) ↦ All-map (λ k n p. n p ∙ sym (chosen_found found)) ls all_have
      ]

pub shared_after :
    (group user l l' : Text) (d : Disk)
    → lines
        (append_line (user_file user) l' (append_line (shared_file group) l d))
        (shared_file group)
      ≡ lines d (shared_file group) ++ l ∷ []
unfolding eq_text
shared_after group user l l' d =
    lines-write (user_file user) (shared_file group) _ (append_line (shared_file group) l d)
    ∙ lines-write (shared_file group) (shared_file group) (lines d (shared_file group) ++ l ∷ []) d
    ∙ ap (λ b. if b then lines d (shared_file group) ++ l ∷ [] else lines d (shared_file group))
        (eq_text_refl (shared_file group))

module _ (hash size group user name path : Text) (h : Lacks space hash) (z : Lacks space size)
    (u : Lacks space user) (n : Lacks space name) (named : name ≢ []) where
  -- The chosen name has no blank, as it is a field of a line or the name that was sent.
  chosen-Lacks :
      (given : Text) (ls : List Text)
      → HaveFields 4 ls
      → name_of_hash hash ls ≡ some given
      → Lacks space (nonempty_or given name)
  chosen-Lacks given ls f e = go given (name_of_hash-Lacks hash given ls f e)
    where
      go : (g : Text) → Lacks space g → Lacks space (nonempty_or g name)
      go [] _ = n
      go (x ∷ xs) k = k

  share-IsConsistent :
      (s : Tracker)
      → HaveFields 4 (lines s.disk (shared_file group))
      → IsConsistent (lines s.disk (shared_file group))
      → Runs
          (share hash size group user name path)
          s
          (λ _ s'. IsConsistent (lines s'.disk (shared_file group)))
  unfolding share check_group_files get_group_file_name check_integrity
  share-IsConsistent s f c =
      let ls = lines s.disk (shared_file group) in
      let (known, e1) = Has-has_upload hash user ls f in
      let (given, e2) = Has-name_of_hash hash user ls f in
      let chosen = nonempty_or given name in
      let (conflict, e3) = Has-has_conflict hash chosen ls f in
      let l = shared_line hash size user chosen in
      let k = chosen-Lacks given ls f e2 in
      Runs-search _ _ _ known e1 (
        Runs-when _ _ _ (λ _. Runs-pure _ c)
          λ _. Runs-search _ _ _ given e2 (
            Runs-search _ _ _ conflict e3 (
              Runs-when _ _ _ (λ _. Runs-pure _ c)
                λ free. Runs-on_disk _ _ (
                  Runs-on_disk _ _ (
                    Runs-sync _ _ (search (Exists-write, Exists-write_self)) λ _.
                      Runs-sync _ _ (search (Exists-write, Exists-write_self)) λ _. Runs-pure _ (
                        rw (shared_after group user l (path_line group chosen path) s.disk) (
                          IsConsistent-append ls l c
                            (chosen-Agree hash name given ls f c named e2 l (e3 ∙ ap some free)
                              (hash_of-shared_line hash size user chosen h z u k)
                              (name_of-shared_line hash size user chosen h z u k))
                            (λ empty. chosen-ne-nil hash name given ls f c named e2 (
                              sym (name_of-shared_line hash size user chosen h z u k)
                              ∙ empty)))))))))

  -- An upload ends, and afterwards the group's list is consistent if it was so before: a name that
  -- is taken for other content is refused, and a second upload of a content is listed under its
  -- first name.
  pub group_file_upload-IsConsistent :
      (s : Tracker)
      → HaveFields 4 (lines s.disk (shared_file group))
      → IsConsistent (lines s.disk (shared_file group))
      → Runs
          (group_file_upload hash size group user name path)
          s
          (λ _ s'. IsConsistent (lines s'.disk (shared_file group)))
  unfolding group_file_upload
  group_file_upload-IsConsistent s f c = Runs-get _ (
      Runs-when _ _ _
        (λ _.
          Runs-members group _
            (Runs-get _ (Runs-when _ _ _ (λ _. share-IsConsistent _ f c) (λ _. Runs-pure _ c))))
        (λ _. Runs-pure _ c))
