-- ===== src/Tracker/Groups/Joining.antt =====
-- From the wish to join a group to membership: `GroupJoin`, and `GroupAcceptRequest` after it.
use torrent_based_file_shari.Common.{
  ◌≡◌, refl, sym, ap, subst, ◌∙◌, Bool, true, false, not, ◌&&◌, none, some, [], ◌∷◌, ◌++◌,
  append-nil, if◌then◌else◌, Text, eq_text, lookup, contains, mem_text, mem_pair,
}
use torrent_based_file_shari.Common.Sets.{mem_pair-set_insert}
use torrent_based_file_shari.Tracker.State.{
  lines, write, pending_file, members_file, Tracker, ◌>>=◌,
}
use torrent_based_file_shari.Tracker.Fetch.{members}
use torrent_based_file_shari.Tracker.Groups.{
  two_words, touch, add_request, request_to_join, group_join, group_accept_request,
}
use torrent_based_file_shari.Tracker.Groups.Membership.{
  is_member, joined, group_accept_request-Accepted,
}
use torrent_based_file_shari.Tracker.Safety.Rules.{
  Runs, Exists, Runs-bind, Runs-get, Runs-pure, Runs-when, Runs-if_found, Runs-on_disk,
  Runs-on_tables, Runs-on_tables_last, Runs-sync, Runs-weaken, Runs-both,
}
use torrent_based_file_shari.Tracker.Safety.Disk.{lines-write}
use torrent_based_file_shari.Tracker.Safety.Fetching.{IsGood, Exists-write_self, Runs-members}
use torrent_based_file_shari.Tracker.Safety.Groups.{group_join-Good}

module _ (group user : Text) where
  -- Whether `GroupJoin` writes a request: the group is known, the user is no member, and the owner is online
  -- or no such request is pending.
  abbrev pub writes_request : Tracker → Bool
  writes_request s = elim (lookup group s.tables.groups) [
    | none ↦ false
    | some owner ↦
        if is_member group user s.disk
        then false
        else if mem_text owner s.tables.online
        then true
        else not (mem_pair (user, group) s.tables.pending)
  ]

  -- The files and the tables after a request, new or not.
  abbrev Asked : Bool → Tracker → Tracker → Type 0
  Asked new s s' =
      (lines s'.disk pending_file
        ≡ lines s.disk pending_file ++ (if new then two_words user group ∷ [] else []))
      × (lines s'.disk (members_file group) ≡ lines s.disk (members_file group))
      × (s'.tables.groups ≡ s.tables.groups)
      × (s'.tables.credentials ≡ s.tables.credentials)
      × (mem_pair (user, group) s'.tables.pending ≡ true)
      × Exists s'.disk pending_file

  add_request-Asked :
      (s : Tracker) → IsGood s.disk → Runs (add_request user group) s (λ _ s'. Asked true s s')
  unfolding write eq_text
  add_request-Asked s h = Runs-on_disk _ _ (
      Runs-on_tables_last _ (
        lines-write pending_file pending_file _ s.disk,
        lines-write pending_file (members_file group)
            (lines s.disk pending_file ++ two_words user group ∷ []) s.disk,
        refl,
        refl,
        mem_pair-set_insert (user, group) s.tables.pending,
        Exists-write_self pending_file _ s.disk,
      ))

  request_to_join-Asked :
      (owner : Text) (s : Tracker)
      → IsGood s.disk
      → Runs (request_to_join group user owner) s (λ r s'.
        (r ≡ true)
        × Asked
            (if mem_text owner s.tables.online
              then true
              else not (mem_pair (user, group) s.tables.pending))
            s
            s')
  unfolding request_to_join
  request_to_join-Asked owner s h = Runs-get _ (
      Runs-bind _ _
        {P = λ _ s'.
          Asked
            (if mem_text owner s.tables.online
              then true
              else not (mem_pair (user, group) s.tables.pending))
            s s'}
        (Runs-when _ _ _
          (λ on. Runs-on_tables _ _ (
            rw on (
              add_request-Asked
                (record s {
                  tables = record s.tables { online_users = touch owner s.tables.online_users };
                })
                h)))
          (λ off.
            Runs-when _ _ _
              (λ old.
                Runs-pure _ (rw (off, old) (sym (append-nil _), refl, refl, refl, refl, h.pending)))
              (λ new. rw (off, new) (add_request-Asked s h))))
        λ _ s' asked. Runs-sync _ _ asked.5 λ e. Runs-pure _ (refl, asked))

  -- `GroupJoin` ends and answers yes exactly to a known group. One request is appended to the file of the
  -- requests exactly where the group is known, the user is no member, and the owner is online or
  -- no such request is pending; the members' file keeps its lines.
  pub group_join-Requested :
      (s : Tracker)
      → IsGood s.disk
      → Runs (group_join group user) s (λ r s'.
        (r ≡ contains group s.tables.groups)
        × (lines s'.disk pending_file
            ≡ lines s.disk pending_file
              ++ (if writes_request s then two_words user group ∷ [] else []))
        × (lines s'.disk (members_file group) ≡ lines s.disk (members_file group)))
  unfolding group_join
  group_join-Requested s h = Runs-get _ (
      Runs-if_found _ _ _
        (λ unknown.
          Runs-pure _ (rw (unknown, contains, writes_request) (refl, sym (append-nil _), refl)))
        λ owner known. Runs-members group _ (
          Runs-get _ (
            Runs-when _ _ _
              (λ old.
                Runs-pure _
                  (rw (known, contains, writes_request, old) (refl, sym (append-nil _), refl)))
              λ new.
                Runs-weaken
                  (request_to_join-Asked owner
                    (record s { group_members = members [] (lines s.disk (members_file group)) }) h)
                  λ r s' (yes_, asked).
                    rw (known, contains, writes_request, new) (yes_, asked.0, asked.1))))

  asks_first :
      (owner : Text) (s : Tracker)
      → IsGood s.disk
      → lookup group s.tables.groups ≡ some owner
      → is_member group user s.disk ≡ false
      → Runs (group_join group user) s (λ _ s'.
        Asked
          (if mem_text owner s.tables.online
            then true
            else not (mem_pair (user, group) s.tables.pending))
          s
          s')
  unfolding group_join
  asks_first owner s h known new = Runs-get _ (
      Runs-if_found _ _ _ (λ unknown. let bad : none ≡ some owner = sym unknown ∙ known in cc)
        λ owner' known'. Runs-members group _ (
          Runs-get _ (
            Runs-when _ _ _ (λ old. let bad : true ≡ false = sym old ∙ new in cc)
              λ _.
                Runs-weaken
                  (request_to_join-Asked owner'
                    (record s { group_members = members [] (lines s.disk (members_file group)) }) h)
                  λ r s' (yes_, asked).
                    let same : some owner' ≡ some owner = sym known' ∙ known in
                    let same' : owner' ≡ owner = cc in
                    subst
                      (λ o.
                        Asked
                          (if mem_text o s.tables.online
                            then true
                            else not (mem_pair (user, group) s.tables.pending))
                          s s')
                      same' asked)))

  -- A user of a known group who is known to the tracker, is no member and asks to join, and whom the owner
  -- then lets in, is a member.
  pub group_join-group_accept_request :
      (owner : Text) (s : Tracker)
      → IsGood s.disk
      → lookup group s.tables.groups ≡ some owner
      → contains user s.tables.credentials ≡ true
      → is_member group user s.disk ≡ false
      → Runs (group_join group user >>= λ _. group_accept_request group user owner) s (λ r s'.
        (r ≡ true)
        × (lines s'.disk (members_file group) ≡ lines s.disk (members_file group) ++ user ∷ []))
  group_join-group_accept_request owner s h known user_known new =
      Runs-bind _ _
        {P = λ _ s'.
          Asked
            (if mem_text owner s.tables.online
              then true
              else not (mem_pair (user, group) s.tables.pending))
            s s'
          × IsGood s'.disk}
        (Runs-both (asks_first owner s h known new) (group_join-Good group user s h)
          (λ r s' p q. (p, q)))
        λ r s1 (asked, good).
          Runs-weaken (group_accept_request-Accepted group user owner s1 good)
            λ r' s2 (iff, accepted).
              let yes_ : r' ≡ true = iff.1 (
                ap (lookup group) asked.2 ∙ known,
                ap (contains user) asked.3 ∙ user_known,
                asked.4,
              ) in
              let still_new : is_member group user s1.disk ≡ false =
                ap (λ ls. mem_text user (members [] ls)) asked.1 ∙ new in
              (
                yes_,
                accepted.0
                    ∙ ap
                        (λ b.
                          if b
                          then joined group user s1.disk
                          else lines s1.disk (members_file group))
                        (ap (λ b. b && not (is_member group user s1.disk)) yes_ ∙ ap not still_new)
                    ∙ ap (λ ls. ls ++ user ∷ []) asked.1,
              )
