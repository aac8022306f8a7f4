-- ===== src/Tracker/Groups/Leaving.antt =====
-- `GroupLeave`: what it deletes, and for whom.
use torrent_based_file_shari.Common.{
  ◌≡◌, ◌≢◌, ◌↔◌, refl, ap, ◌∙◌, Bool, true, false, not, none, some, List, [], arith, if◌then◌else◌,
  keep, All-keep, Text, codes, eq_text, eq_text_refl, eq_of_eq_text, eq_text-append_left, lookup,
}
use torrent_based_file_shari.Tracker.State.{
  Disk, lines, temp_file, members_file, shared_file, user_file, Tracker,
}
use torrent_based_file_shari.Tracker.Fetch.{members, create_files}
use torrent_based_file_shari.Tracker.Files.Deletion.{
  field_or_empty, keep_other_lem, lines-replace_by_temp, no_temp-replace_by_temp,
  lines-create_files, Runs-fetch_details, Runs-delete_line_at,
}
use torrent_based_file_shari.Tracker.Files.{keep_other, replace_by_temp}
use torrent_based_file_shari.Tracker.Groups.{drop_member, group_leave}
use torrent_based_file_shari.Tracker.Groups.Membership.{is_member}
use torrent_based_file_shari.Tracker.Safety.Paths.{Fits-members, Fits-shared, Fits-user}
use torrent_based_file_shari.Tracker.Safety.Groups.{any_fields}
use torrent_based_file_shari.Tracker.Safety.Rules.{
  Runs-weaken, Runs, Runs-bind, Runs-get, Runs-pure, Runs-when, Runs-if_found, Runs-sync,
}
use torrent_based_file_shari.Tracker.Safety.Disk.{IsGroupName, IsUserName}
use torrent_based_file_shari.Tracker.Safety.Fetching.{
  IsGood, replace_by_temp-IsGood, Exists-replace_by_temp, Exists-replace_by_temp_self, Runs-members,
}

module _ (group user : Text) where
  -- What stays of the three files when a user leaves.
  abbrev pub members_left : Disk → List Text
  members_left d =
      keep (λ l. not (eq_text (field_or_empty 0 l) user)) (lines d (members_file group))

  abbrev pub shares_left : Disk → List Text
  shares_left d = keep (λ l. not (eq_text (field_or_empty 2 l) user)) (lines d (shared_file group))

  abbrev pub own_left : Disk → List Text
  own_left d = keep (λ l. not (eq_text (field_or_empty 0 l) group)) (lines d (user_file user))

  abbrev pub Left : Bool → Disk → Disk → Type 0
  Left gone d d' =
      (lines d' (members_file group)
        ≡ (if gone then members_left d else lines d (members_file group)))
      × (lines d' (shared_file group)
          ≡ (if gone then shares_left d else lines d (shared_file group)))
      × (lines d' (user_file user) ≡ (if gone then own_left d else lines d (user_file user)))

  members-ne-shared : eq_text (members_file group) (shared_file group) ≡ false
  unfolding eq_text
  members-ne-shared = eq_text-append_left group (codes ".txt") (codes "_files.txt")

  shared-ne-members : eq_text (shared_file group) (members_file group) ≡ false
  unfolding eq_text
  shared-ne-members = eq_text-append_left group (codes "_files.txt") (codes ".txt")

  abbrev after : Disk → List Text → List Text → List Text → Disk
  after d k1 k2 k3 =
      replace_by_temp (user_file user) k3
        (replace_by_temp (shared_file group) k2 (replace_by_temp (members_file group) k1 d))

  -- The three deletions touch three different files.
  lines-after :
      (d : Disk) (k1 k2 k3 : List Text)
      → d temp_file ≡ none
      → (lines (after d k1 k2 k3) (members_file group) ≡ k1)
        × (lines (after d k1 k2 k3) (shared_file group) ≡ k2)
        × (lines (after d k1 k2 k3) (user_file user) ≡ k3)
  unfolding eq_text
  lines-after d k1 k2 k3 t =
      let d1 = replace_by_temp (members_file group) k1 d in
      let d2 = replace_by_temp (shared_file group) k2 d1 in
      let t1 = no_temp-replace_by_temp (members_file group) k1 d in
      let t2 = no_temp-replace_by_temp (shared_file group) k2 d1 in
      (
        lines-replace_by_temp (user_file user) (members_file group) k3 d2 t2 refl
            ∙ lines-replace_by_temp (shared_file group) (members_file group) k2 d1 t1 refl
            ∙ ap (λ b. if b then k2 else lines d1 (members_file group)) shared-ne-members
            ∙ lines-replace_by_temp (members_file group) (members_file group) k1 d t refl
            ∙ ap (λ b. if b then k1 else lines d (members_file group))
                (eq_text_refl (members_file group)),
        lines-replace_by_temp (user_file user) (shared_file group) k3 d2 t2 refl
            ∙ lines-replace_by_temp (shared_file group) (shared_file group) k2 d1 t1 refl
            ∙ ap (λ b. if b then k2 else lines d1 (shared_file group))
                (eq_text_refl (shared_file group)),
        lines-replace_by_temp (user_file user) (user_file user) k3 d2 t2 refl
            ∙ ap (λ b. if b then k3 else lines d2 (user_file user)) (eq_text_refl (user_file user)),
      )

  -- The other files are still as they were when their turn comes.
  before_shared :
      (d : Disk) (k1 : List Text)
      → d temp_file ≡ none
      → lines (replace_by_temp (members_file group) k1 d) (shared_file group)
        ≡ lines d (shared_file group)
  unfolding eq_text
  before_shared d k1 t =
      lines-replace_by_temp (members_file group) (shared_file group) k1 d t refl
      ∙ ap (λ b. if b then k1 else lines d (shared_file group)) members-ne-shared

  before_user :
      (d : Disk) (k1 k2 : List Text)
      → d temp_file ≡ none
      → lines
          (replace_by_temp (shared_file group) k2 (replace_by_temp (members_file group) k1 d))
          (user_file user)
        ≡ lines d (user_file user)
  unfolding eq_text
  before_user d k1 k2 t =
      lines-replace_by_temp (shared_file group) (user_file user) k2 _
        (no_temp-replace_by_temp (members_file group) k1 d) refl
      ∙ lines-replace_by_temp (members_file group) (user_file user) k1 d t refl

  Left-lines :
      (d d' : Disk)
      → d temp_file ≡ none
      → d' ≡ create_files (after d (members_left d) (shares_left d) (own_left d))
      → Left true d d'
  Left-lines d d' t e =
      let d3 = after d (members_left d) (shares_left d) (own_left d) in
      let (a, b, c) = lines-after d (members_left d) (shares_left d) (own_left d) t in
      (
        ap (λ x. lines x (members_file group)) e ∙ lines-create_files (members_file group) d3 ∙ a,
        ap (λ x. lines x (shared_file group)) e ∙ lines-create_files (shared_file group) d3 ∙ b,
        ap (λ x. lines x (user_file user)) e ∙ lines-create_files (user_file user) d3 ∙ c,
      )

  after-IsGood :
      (d : Disk)
      → IsGroupName group
      → IsUserName user
      → IsGood d
      → IsGood (after d (members_left d) (shares_left d) (own_left d))
  after-IsGood d name name' h =
      replace_by_temp-IsGood (user_file user) _ _
        (Fits-user _ user (All-keep _ _ (lines d (user_file user)) (h.safe.users user name')))
        (replace_by_temp-IsGood (shared_file group) _ _
          (Fits-shared _ group (All-keep _ _ (lines d (shared_file group)) (h.safe.shared group)))
          (replace_by_temp-IsGood (members_file group) _ d (Fits-members _ group name) h))

  drop_member-Left :
      (s : Tracker)
      → IsGroupName group
      → IsUserName user
      → IsGood s.disk
      → Runs (drop_member group user) s (λ r s'. (r ≡ true) × Left true s.disk s'.disk)
  unfolding drop_member eq_text
  drop_member-Left s name name' h =
      let d = s.disk in
      let k1 = members_left d in
      let k2 = shares_left d in
      let d1 = replace_by_temp (members_file group) k1 d in
      let d2 = replace_by_temp (shared_file group) k2 d1 in
      let t = h.safe.no_temp in
      Runs-delete_line_at (members_file group) user 0 _ k1
        (keep_other_lem 1 0 user _ (any_fields _) (omega arith))
        (Runs-delete_line_at (shared_file group) user 2 _ k2
          (ap (keep_other user 2) (before_shared d k1 t)
            ∙ keep_other_lem 4 2 user _ (h.safe.shared group) (omega arith))
          (Runs-delete_line_at (user_file user) group 0 _ (own_left d)
            (ap (keep_other group 0) (before_user d k1 k2 t)
              ∙ keep_other_lem 3 0 group _ (h.safe.users user name') (omega arith))
            (Runs-sync _ _
              (Exists-replace_by_temp (user_file user) (members_file group) _ d2 refl (
                Exists-replace_by_temp (shared_file group) (members_file group) _ d1 refl
                  (Exists-replace_by_temp_self (members_file group) k1 d refl)))
              λ _.
                Runs-sync _ _
                  (Exists-replace_by_temp (user_file user) (shared_file group) _ d2 refl
                    (Exists-replace_by_temp_self (shared_file group) k2 d1 refl))
                  λ _. Runs-sync _ _ (Exists-replace_by_temp_self (user_file user) _ d2 refl) λ _.
                    Runs-bind _ _ (Runs-fetch_details _ (after-IsGood d name name' h).safe)
                      λ _ s' (e, _, _). Runs-pure _ (refl, Left-lines d s'.disk t e))))

  -- A member who is not the owner of the group.
  abbrev pub IsLeaver : Tracker → Type 0
  IsLeaver s =
      (owner : Text) × (lookup group s.tables.groups ≡ some owner)
      × (owner ≢ user)
      × (is_member group user s.disk ≡ true)

  -- `GroupLeave` ends, and answers yes exactly to a member of the group who is not its owner. Then
  -- every line of the user is gone from the members and from the group's list of files, and every
  -- line of the group from the user's list; all other lines stay, as everything does after a no.
  pub group_leave-Left :
      (s : Tracker)
      → IsGroupName group
      → IsUserName user
      → IsGood s.disk
      → Runs (group_leave group user) s (λ r s'. ((r ≡ true) ↔ IsLeaver s) × Left r s.disk s'.disk)
  unfolding group_leave
  group_leave-Left s name name' h = Runs-get _ (
      Runs-if_found _ _ _
        (λ e. Runs-pure _ (
          ((λ f. absurd (ground arith)), (λ (o, e', _, _). absurd (ground arith))),
          (refl, refl, refl),
        ))
        λ owner e. Runs-members group _ (
          Runs-get _ (
            Runs-when _ _ _
              (λ old.
                Runs-when _ _ _
                  (λ own. Runs-pure _ (
                    (
                      (λ f. absurd (ground arith)),
                      (λ (o, e', other, _).
                          let p : o ≡ owner = ground arith in
                          absurd (other (p ∙ eq_of_eq_text owner user own))),
                    ),
                    (refl, refl, refl),
                  ))
                  (λ other.
                    Runs-weaken
                      (drop_member-Left
                        (record s {
                          group_members = members [] (lines s.disk (members_file group));
                        })
                        name name' h)
                      λ r s' (yes_, left). (
                        (
                          (λ _. (owner, e, (λ same. ground (arith, eq_text_refl user)), old)),
                          (λ _. yes_),
                        ),
                        rw yes_ left,
                      )))
              (λ stranger. Runs-pure _ (
                ((λ f. absurd (ground arith)), (λ (o, _, _, m). absurd (ground arith))),
                (refl, refl, refl),
              )))))
