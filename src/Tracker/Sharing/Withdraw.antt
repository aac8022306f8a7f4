-- ===== src/Tracker/Sharing/Withdraw.antt =====
-- `GroupStopShare` against its description by two filters.
use torrent_based_file_shari.Common.{
  ℕ, ◌<◌, ◌≡◌, refl, ap, ◌∙◌, inl, inr, Bool, true, false, not, ◌&&◌, some, List, [], ◌∷◌, arith,
  if◌then◌else◌, keep, Text, eq_text, eq_text_refl, Bool-cases, mem_text, contains,
}
use torrent_based_file_shari.Tracker.State.{
  Disk, lines, write, temp_file, members_file, shared_file, user_file, Tracker,
}
use torrent_based_file_shari.Tracker.Fetch.{members}
use torrent_based_file_shari.Tracker.Sharing.{keep_unless, replace_file, unshare, group_stop_share}
use torrent_based_file_shari.Tracker.Files.Deletion.{field_or_empty, lines-remove}
use torrent_based_file_shari.Tracker.Safety.Rules.{
  Runs, Runs-get, Runs-pure, Runs-when, Runs-on_disk, Runs-sync, Runs-expect, Runs-read_lines,
}
use torrent_based_file_shari.Tracker.Safety.Disk.{HaveFields, IsUserName, lines-write}
use torrent_based_file_shari.Tracker.Safety.Lines.{Has-field}
use torrent_based_file_shari.Tracker.Safety.Fetching.{
  IsGood, Exists-replace_file, Exists-replace_file_self, Runs-members,
}

-- The test that the two loops of `GroupStopShare` make on each line, as a Boolean.
abbrev pub other_than : ℕ → Text → ℕ → Text → Text → Bool
other_than i x j y l =
    not (if eq_text (field_or_empty i l) x then eq_text (field_or_empty j l) y else false)

keep_unless_lem :
    (n i : ℕ) (x : Text) (j : ℕ) (y : Text) (ls : List Text)
    → HaveFields n ls
    → i < n
    → j < n
    → keep_unless i x j y ls ≡ some (keep (other_than i x j y) ls)
unfolding keep_unless
keep_unless_lem n i x j y [] h ki kj = refl
keep_unless_lem n i x j y (l ∷ ls) (h, hs) ki kj =
    let (f, e) = Has-field n i l h ki in
    let (g, e') = Has-field n j l h kj in
    let ih = keep_unless_lem n i x j y ls hs ki kj in
    elim (Bool-cases (eq_text f x)) [
      | inl q ↦ elim (Bool-cases (eq_text g y)) [ inl q' ↦ ground arith | inr q' ↦ ground arith ]
      | inr q ↦ ground arith
    ]

module _ (p q : Text) (kept : List Text) (d : Disk) (n : eq_text temp_file q ≡ false) where
  pub lines-replace_file :
      lines (replace_file p kept d) q ≡ (if eq_text p q then kept else lines d q)
  unfolding replace_file
  lines-replace_file = lines-remove temp_file q (write p kept d) n ∙ lines-write p q kept d

lines-replace_file_self :
    (p : Text) (kept : List Text) (d : Disk)
    → eq_text temp_file p ≡ false
    → lines (replace_file p kept d) p ≡ kept
lines-replace_file_self p kept d n =
    lines-replace_file p p kept d n ∙ ap (λ b. if b then kept else lines d p) (eq_text_refl p)

lines-replace_file_ne :
    (p q : Text) (kept : List Text) (d : Disk)
    → eq_text temp_file q ≡ false
    → eq_text p q ≡ false
    → lines (replace_file p kept d) q ≡ lines d q
lines-replace_file_ne p q kept d n m =
    lines-replace_file p q kept d n ∙ ap (λ b. if b then kept else lines d q) m

module _ (group name user : Text) where
  -- The lines of the two files afterwards.
  abbrev pub shared_left : Disk → List Text
  shared_left d = keep (other_than 3 name 2 user) (lines d (shared_file group))

  abbrev pub paths_left : Disk → List Text
  paths_left d = keep (other_than 0 group 1 name) (lines d (user_file user))

  unshare-removes :
      (s : Tracker)
      → IsUserName user
      → IsGood s.disk
      → Runs (unshare group name user) s (λ r s'.
        (r ≡ true)
        × (lines s'.disk (shared_file group) ≡ shared_left s.disk)
        × (lines s'.disk (user_file user) ≡ paths_left s.disk))
  unfolding unshare eq_text
  unshare-removes s u h =
      let k1 = shared_left s.disk in
      let d1 = replace_file (shared_file group) k1 s.disk in
      let same : lines d1 (user_file user) ≡ lines s.disk (user_file user) =
        lines-replace_file_ne (shared_file group) (user_file user) k1 s.disk refl refl in
      let k2 = paths_left s.disk in
      Runs-read_lines _ _ (
        Runs-expect _ k1
          (keep_unless_lem 4 3 name 2 user _ (h.safe.shared group) (omega arith) (omega arith))
          (Runs-on_disk _ _ (
            Runs-read_lines _ _ (
              Runs-expect _ k2
                (ap (keep_unless 0 group 1 name) same
                  ∙ keep_unless_lem 3 0 group 1 name _ (h.safe.users user u) (omega arith)
                      (omega arith))
                (Runs-on_disk _ _ (
                  Runs-sync _ _
                    (Exists-replace_file (user_file user) (shared_file group) k2 d1 refl
                      (Exists-replace_file_self (shared_file group) k1 s.disk refl))
                    λ _. Runs-sync _ _ (Exists-replace_file_self (user_file user) k2 d1 refl) λ _.
                      Runs-pure _ (
                        refl,
                        lines-replace_file_ne (user_file user) (shared_file group) k2 d1 refl refl
                            ∙ lines-replace_file_self (shared_file group) k1 s.disk refl,
                        lines-replace_file_self (user_file user) k2 d1 refl,
                      )))))))

  -- The group and the user are known, and the user is a member.
  abbrev pub may_stop : Tracker → Bool
  may_stop s =
      (if contains group s.tables.groups then contains user s.tables.credentials else false)
      && mem_text user (members [] (lines s.disk (members_file group)))

  -- `GroupStopShare` ends. It answers yes exactly to a known user who is a member of a known group;
  -- then the group's list has lost the lines with this file name and user, and the user's list those
  -- with this group and file name, and no other lines. In every other case both lists are as before.
  pub group_stop_share-removes :
      (s : Tracker)
      → IsUserName user
      → IsGood s.disk
      → Runs (group_stop_share group name user) s (λ r s'.
        (r ≡ may_stop s)
        × (lines s'.disk (shared_file group)
            ≡ (if may_stop s then shared_left s.disk else lines s.disk (shared_file group)))
        × (lines s'.disk (user_file user)
            ≡ (if may_stop s then paths_left s.disk else lines s.disk (user_file user))))
  unfolding group_stop_share
  group_stop_share-removes s u h = Runs-get _ (
      Runs-when _ _ _
        (λ known. Runs-members group _ (
          Runs-get _ (
            Runs-when _ _ _ (λ member. rw (known, member) (unshare-removes _ u h))
              (λ stranger. Runs-pure _ (rw (known, stranger) (refl, refl, refl))))))
        (λ unknown. Runs-pure _ (rw unknown (refl, refl, refl))))
