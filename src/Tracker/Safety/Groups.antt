-- ===== src/Tracker/Safety/Groups.antt =====
-- The operations on groups keep the files safe.
use torrent_based_file_shari.Common.{
  ◌≤◌, refl, List, [], ◌∷◌, arith, All-append, length, Text, eq_text, split,
}
use torrent_based_file_shari.Common.Strings.Split.{length-split, split-pos}
use torrent_based_file_shari.Tracker.State.{
  Disk, lines, write, append_line, group_file, pending_file, members_file, shared_file, user_file,
  Tracker,
}
use torrent_based_file_shari.Tracker.Fetch.{space}
use torrent_based_file_shari.Tracker.Groups.{
  two_words, group_create, group_list, group_request_list, add_request, request_to_join, group_join,
  group_accept_request, drop_member, group_leave,
}
use torrent_based_file_shari.Tracker.Safety.Rules.{
  Runs, Runs-bind, Runs-get, Runs-pure, Runs-when, Runs-if_found, Runs-on_disk, Runs-on_tables,
  Runs-on_tables_last, Runs-sync,
}
use torrent_based_file_shari.Tracker.Safety.Disk.{HaveFields, IsGroupName, IsUserName}
use torrent_based_file_shari.Tracker.Safety.Paths.{
  Fits-nil, Fits-group, Fits-pending, Fits-members, Fits-shared, Fits-user,
}
use torrent_based_file_shari.Tracker.Safety.Fetching.{
  IsGood, Good, Exists-write, Exists-write_self, write-IsGood, fetch_details-Good,
  fetch_group_members-Good, delete_line_at-Good, delete_line-Good,
}

two_words_fields : (a b : Text) → 2 ≤ length (split (two_words a b) space)
two_words_fields a b = omega (arith, length-split space a b, split-pos space a, split-pos space b)

pub any_fields : (ls : List Text) → HaveFields 1 ls
any_fields [] = tt
any_fields (l ∷ ls) = (split-pos space l, any_fields ls)

module _ (group : Text) where
  -- The files after a new group.
  unfoldable pub made : Text → Disk → Disk
  made owner d =
      write (shared_file group) []
        (write (members_file group) (owner ∷ []) (append_line group_file (two_words group owner) d))

  pub made-IsGood : (owner : Text) (d : Disk) → IsGroupName group → IsGood d → IsGood (made owner d)
  unfolding made eq_text
  made-IsGood owner d name h = write-IsGood _ [] _ (Fits-nil _ refl) (
      write-IsGood _ _ _ (Fits-members _ group name) (
        write-IsGood group_file _ d
          (Fits-group _
            (All-append _ (lines d group_file) _ h.safe.groups (two_words_fields group owner, tt)))
          h))

  pub group_create-Good :
      (owner : Text) (s : Tracker)
      → IsGroupName group
      → IsGood s.disk
      → Runs (group_create group owner) s Good
  unfolding group_create made
  group_create-Good owner s name h = Runs-bind _ _ (fetch_details-Good s h.safe) λ _ s' h'.
      Runs-get _ (
        Runs-when _ _ _ (λ _. Runs-pure _ h')
          λ _. Runs-on_disk _ _ (
            Runs-on_disk _ _ (
              Runs-on_disk _ _ (
                Runs-sync _ _ (search (Exists-write, Exists-write_self)) λ e1.
                  Runs-sync _ _ (search (Exists-write, Exists-write_self)) λ e2.
                    Runs-sync _ _ (search (Exists-write, Exists-write_self)) λ e3.
                      Runs-bind _ _ (fetch_details-Good _ (made-IsGood owner s'.disk name h').safe)
                        λ _ s'' h''. Runs-pure _ h''))))

pub group_list-Good : (s : Tracker) → IsGood s.disk → Runs group_list s Good
unfolding group_list
group_list-Good s h =
    Runs-bind _ _ (fetch_details-Good s h.safe) λ _ s' h'. Runs-get _ (Runs-pure _ h')

module _ (group user : Text) where
  pub group_request_list-Good :
      (s : Tracker) → IsGood s.disk → Runs (group_request_list group user) s Good
  unfolding group_request_list
  group_request_list-Good s h = Runs-bind _ _ (fetch_details-Good s h.safe) λ _ s' h'. Runs-get _ (
      Runs-if_found _ _ _ (λ _. Runs-pure _ h')
        (λ owner _. Runs-when _ _ _ (λ _. Runs-pure _ h') (λ _. Runs-pure _ h')))

  add_request-Good : (s : Tracker) → IsGood s.disk → Runs (add_request user group) s Good
  add_request-Good s h =
      Runs-on_disk _ _
        (Runs-on_tables_last _ (write-IsGood pending_file _ s.disk (Fits-pending _) h))

  request_to_join-Good :
      (owner : Text) (s : Tracker) → IsGood s.disk → Runs (request_to_join group user owner) s Good
  unfolding request_to_join
  request_to_join-Good owner s h = Runs-get _ (
      Runs-bind _ _
        (Runs-when _ _ _ (λ _. Runs-on_tables _ _ (add_request-Good _ h))
          (λ _. Runs-when _ _ _ (λ _. Runs-pure _ h) (λ _. add_request-Good s h)))
        λ _ s' h'. Runs-sync _ _ h'.pending λ e. Runs-pure _ h')

  pub group_join-Good : (s : Tracker) → IsGood s.disk → Runs (group_join group user) s Good
  unfolding group_join
  group_join-Good s h = Runs-get _ (
      Runs-if_found _ _ _ (λ _. Runs-pure _ h)
        λ owner _. Runs-bind _ _ (fetch_group_members-Good group s h) λ _ s' h'.
          Runs-get _
            (Runs-when _ _ _ (λ _. Runs-pure _ h') (λ _. request_to_join-Good owner s' h')))

  pub group_accept_request-Good :
      (owner : Text) (s : Tracker)
      → IsGroupName group
      → IsGood s.disk
      → Runs (group_accept_request group user owner) s Good
  unfolding group_accept_request eq_text
  group_accept_request-Good owner s name h = Runs-get _ (
      Runs-when _ _ _
        (λ _. Runs-bind _ _ (fetch_group_members-Good group s h) λ _ s' h'. Runs-get _ (
          Runs-when _ _ _ (λ _. Runs-pure _ h')
            λ _. Runs-on_disk _ _ (
              Runs-bind _ _
                (delete_line-Good pending_file _ _
                  (write-IsGood _ _ _ (Fits-members _ group name) h') Fits-pending refl)
                λ _ s2 (h2, there, kept). Runs-sync _ _ there λ e1.
                  Runs-sync _ _ (kept (members_file group) refl (Exists-write_self _ _ s'.disk))
                    λ e2. Runs-pure _ h2)))
        (λ _. Runs-pure _ h))

  drop_member-Good :
      (s : Tracker)
      → IsGroupName group
      → IsUserName user
      → IsGood s.disk
      → Runs (drop_member group user) s Good
  unfolding drop_member eq_text
  drop_member-Good s name name' h =
      Runs-bind _ _
        (delete_line_at-Good (members_file group) user 0 1 s h (any_fields _) (omega arith)
          (λ ls _. Fits-members ls group name) refl)
        λ _ s1 (h1, m1, _).
          Runs-bind _ _
            (delete_line_at-Good (shared_file group) user 2 4 s1 h1 (h1.safe.shared group)
              (omega arith) (λ ls k. Fits-shared ls group k) refl)
            λ _ s2 (h2, f2, kept2).
              Runs-bind _ _
                (delete_line_at-Good (user_file user) group 0 3 s2 h2 (h2.safe.users user name')
                  (omega arith) (λ ls k. Fits-user ls user k) refl)
                λ _ s3 (h3, u3, kept3).
                  Runs-sync _ _
                    (kept3 (members_file group) refl (kept2 (members_file group) refl m1))
                    λ e1. Runs-sync _ _ (kept3 (shared_file group) refl f2) λ e2.
                      Runs-sync _ _ u3
                        λ e3. Runs-bind _ _ (fetch_details-Good _ h3.safe) λ _ s4 h4. Runs-pure _ h4

  pub group_leave-Good :
      (s : Tracker)
      → IsGroupName group
      → IsUserName user
      → IsGood s.disk
      → Runs (group_leave group user) s Good
  unfolding group_leave
  group_leave-Good s name name' h = Runs-get _ (
      Runs-if_found _ _ _ (λ _. Runs-pure _ h)
        λ owner _. Runs-bind _ _ (fetch_group_members-Good group s h) λ _ s' h'. Runs-get _ (
          Runs-when _ _ _
            (λ _. Runs-when _ _ _ (λ _. Runs-pure _ h') (λ _. drop_member-Good s' name name' h'))
            (λ _. Runs-pure _ h')))
