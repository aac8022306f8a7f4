-- ===== src/Tracker/Groups/Membership.antt =====
-- Who becomes a member of a group, and who leaves it: `GroupAcceptRequest` and `GroupLeave`.
use torrent_based_file_shari.Common.{
  ◌≡◌, ◌↔◌, refl, sym, ap, ◌∙◌, inl, inr, Bool, true, not, ◌&&◌, some, List, [], ◌∷◌, ◌++◌, arith,
  if◌then◌else◌, keep, Text, eq_text, eq_text_refl, eq_of_eq_text, Bool-cases, Option-cases, lookup,
  contains, mem_text, mem_pair,
}
use torrent_based_file_shari.Tracker.State.{
  Disk, lines, write, append_line, pending_file, members_file, Tables, Tracker,
}
use torrent_based_file_shari.Tracker.Fetch.{members}
use torrent_based_file_shari.Tracker.Files.Deletion.{lines-replace_by_temp}
use torrent_based_file_shari.Tracker.Files.{replace_by_temp, delete_line}
use torrent_based_file_shari.Tracker.Groups.{two_words, may_accept, group_accept_request}
use torrent_based_file_shari.Tracker.Safety.Rules.{
  Runs, Exists, Runs-bind, Runs-get, Runs-pure, Runs-when, Runs-on_disk, Runs-sync, Runs-read_lines,
  Runs-on_disk_last,
}
use torrent_based_file_shari.Tracker.Safety.Disk.{lines-write}
use torrent_based_file_shari.Tracker.Safety.Fetching.{
  IsGood, Exists-write_self, Exists-replace_by_temp, Exists-replace_by_temp_self, Runs-members,
}

-- The group's owner asks, for a known user with a pending request.
abbrev pub IsAuthorized : Text → Text → Text → Tables → Type 0
IsAuthorized group user owner t =
    (lookup group t.groups ≡ some owner)
    × (contains user t.credentials ≡ true)
    × (mem_pair (user, group) t.pending ≡ true)

may_accept_sound :
    (group user owner : Text) (t : Tables)
    → may_accept group user owner t ≡ true
    → IsAuthorized group user owner t
may_accept_sound group user owner t e = elim (Option-cases (lookup group t.groups)) [
  | inl q ↦ absurd (ground arith)
  | inr (o, q) ↦ elim (Bool-cases (eq_text o owner)) [
    | inl same ↦
        let p = eq_of_eq_text o owner same in
        elim (Bool-cases (contains user t.credentials)) [
          | inl known ↦ (q ∙ ap some p, known, ground arith)
          | inr unknown ↦ absurd (ground arith)
        ]
    | inr other ↦ absurd (ground arith)
  ]
]

may_accept_complete :
    (group user owner : Text) (t : Tables)
    → IsAuthorized group user owner t
    → may_accept group user owner t ≡ true
may_accept_complete group user owner t (q, known, asked) = ground (arith, eq_text_refl owner)

module _ (group user : Text) where
  -- The lines of the two files after an accepted request.
  abbrev pub joined : Disk → List Text
  joined d = lines d (members_file group) ++ user ∷ []

  abbrev pub requests_left : Disk → List Text
  requests_left d = keep (λ l. not (eq_text l (two_words user group))) (lines d pending_file)

  abbrev pub is_member : Disk → Bool
  is_member d = mem_text user (members [] (lines d (members_file group)))

  -- What `GroupAcceptRequest` does to the files, by whether it accepts someone new.
  abbrev pub Accepted : Bool → Disk → Disk → Type 0
  Accepted new d d' =
      (lines d' (members_file group) ≡ (if new then joined d else lines d (members_file group)))
      × (lines d' pending_file ≡ (if new then requests_left d else lines d pending_file))

  -- Of the deletion in `.pending.txt` after the member was appended.
  accept_files :
      (d : Disk)
      → IsGood d
      → Accepted true d (
          replace_by_temp pending_file
            (keep
              (λ l. not (eq_text l (two_words user group)))
              (lines (append_line (members_file group) user d) pending_file))
            (append_line (members_file group) user d))
  unfolding eq_text write
  accept_files d h = (
    lines-replace_by_temp pending_file (members_file group) _
          (append_line (members_file group) user d) h.safe.no_temp refl
        ∙ lines-write (members_file group) (members_file group) (joined d) d
        ∙ ap (λ b. if b then joined d else lines d (members_file group))
            (eq_text_refl (members_file group)),
    lines-replace_by_temp pending_file pending_file _ (append_line (members_file group) user d)
        h.safe.no_temp refl,
  )

  -- On good files `GroupAcceptRequest` ends, and answers yes exactly where the group's owner asks for a known user
  -- with a pending request. The user's line is added to the members, and every such request is
  -- dropped, exactly where the answer is yes and the user was no member; otherwise both files stay.
  pub group_accept_request-Accepted :
      (owner : Text) (s : Tracker)
      → IsGood s.disk
      → Runs (group_accept_request group user owner) s (λ r s'.
        ((r ≡ true) ↔ IsAuthorized group user owner s.tables)
        × Accepted (r && not (is_member s.disk)) s.disk s'.disk)
  unfolding group_accept_request delete_line eq_text
  group_accept_request-Accepted owner s h = Runs-get _ (
      Runs-when _ _ _
        (λ yes_.
          let iff : (true ≡ true) ↔ IsAuthorized group user owner s.tables =
            ((λ _. may_accept_sound group user owner s.tables yes_), (λ _. refl)) in
          Runs-members group _ (
            Runs-get _ (
              Runs-when _ _ _ (λ old. Runs-pure _ (iff, rw old (refl, refl)))
                (λ new. Runs-on_disk _ _ (
                  Runs-bind _ _
                    {P = λ _ s'.
                      Accepted true s.disk s'.disk
                      × Exists s'.disk pending_file
                      × Exists s'.disk (members_file group)}
                    (Runs-read_lines _ _ (
                      Runs-on_disk_last _ (
                        accept_files s.disk h,
                        Exists-replace_by_temp_self pending_file _ _ refl,
                        Exists-replace_by_temp pending_file (members_file group) _ _ refl
                            (Exists-write_self (members_file group) _ s.disk),
                      )))
                    λ _ s' (files, there, there').
                      Runs-sync _ _ there
                        λ _. Runs-sync _ _ there' λ _. Runs-pure _ (iff, rw new files))))))
        (λ no_. Runs-pure _ (
          (
            (λ e. absurd (ground arith)),
            (λ a. sym no_ ∙ may_accept_complete group user owner s.tables a),
          ),
          (refl, refl),
        )))
