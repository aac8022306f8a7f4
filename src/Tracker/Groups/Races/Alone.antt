-- ===== src/Tracker/Groups/Races/Alone.antt =====
-- The steps of Races.antt are `GroupCreate`: what a thread does alone is what the handler does.
use torrent_based_file_shari.Common.{
  ◌≡◌, refl, Bool, true, [], ◌∷◌, Text, contains, Bool-cases, Option-cases, inl, inr,
}
use torrent_based_file_shari.Tracker.State.{
  expect, on_tables, modify, append_line, write, group_file, members_file, shared_file, Tracker, M,
  get, pure, on_disk, sync, ◌>>=◌, ◌>>◌, when◌perform◌otherwise◌,
}
use torrent_based_file_shari.Tracker.Fetch.{load, create_files, fetch_details}
use torrent_based_file_shari.Tracker.Groups.{two_words, group_create}
use torrent_based_file_shari.Tracker.Groups.Races.{
  no_tables, clear_tables, read_in, Creating, wrote, answered, creating_step, alone,
}
use torrent_based_file_shari.Tracker.Groups.Creation.{load-groups}

module _ (group owner : Text) where
  -- The answer of the handler, as the end of a thread.
  abbrev ended : Bool → M Creating
  ended r = pure (answered r)

  -- The files after the writes.
  abbrev written : Tracker → Tracker
  written s = record s {
    disk = write (shared_file group) [] (
        write (members_file group) (owner ∷ [])
          (append_line group_file (two_words group owner) s.disk));
  }

  -- `FetchDetails` in its two steps.
  read_in-clear : (s : Tracker) → read_in (record s { tables = no_tables }) ≡ fetch_details s
  unfolding read_in fetch_details on_disk ◌>>=◌ get expect modify on_tables
  read_in-clear s = elim (Option-cases (load (create_files s.disk))) [
    | inl n ↦ rw (read_in, fetch_details, on_disk, ◌>>=◌, get, expect, n) refl
    | inr (t, e) ↦
        rw
          (
            read_in,
            fetch_details,
            on_disk,
            ◌>>=◌,
            get,
            expect,
            e,
            load-groups (create_files s.disk) t e,
            on_tables,
            modify,
          )
          refl
  ]

  -- The copies of the three files, and the second `FetchDetails`.
  copied_then :
      (s : Tracker)
      → (creating_step group owner wrote >>= λ x.
            creating_step group owner x >>= λ x'. creating_step group owner x')
          s
        ≡ ((sync group_file
                >> (sync (members_file group)
                    >> (sync (shared_file group) >> (fetch_details >> pure true))))
              >>= ended)
            s
  unfolding creating_step ◌>>=◌ pure clear_tables on_tables
  copied_then s = elim (Option-cases (sync group_file s)) [
    | inl n ↦ rw (creating_step, ◌>>=◌, n) refl
    | inr ((_, s1), e1) ↦ elim (Option-cases (sync (members_file group) s1)) [
      | inl n ↦ rw (creating_step, ◌>>=◌, e1, n) refl
      | inr ((_, s2), e2) ↦ elim (Option-cases (sync (shared_file group) s2)) [
        | inl n ↦ rw (creating_step, ◌>>=◌, e1, e2, n) refl
        | inr ((_, s3), e3) ↦ elim (Option-cases (fetch_details s3)) [
          | inl n ↦
              rw
                (
                  creating_step,
                  ◌>>=◌,
                  clear_tables,
                  on_tables,
                  pure,
                  e1,
                  e2,
                  e3,
                  read_in-clear s3,
                  n,
                )
                refl
          | inr ((_, s4), e4) ↦
              rw
                (
                  creating_step,
                  ◌>>=◌,
                  clear_tables,
                  on_tables,
                  pure,
                  e1,
                  e2,
                  e3,
                  read_in-clear s3,
                  e4,
                )
                refl
        ]
      ]
    ]
  ]

  -- The steps of one thread, with no other between them, are `GroupCreate`: from every state they end, or are
  -- undefined, as it does, in the same state and with the same answer.
  pub alone-group_create :
      (s : Tracker) → alone group owner s ≡ (group_create group owner >>= ended) s
  unfolding alone creating_step group_create ◌>>=◌ pure get on_disk when◌perform◌otherwise◌
      clear_tables on_tables
  alone-group_create s = elim (Option-cases (fetch_details s)) [
    | inl n ↦
        rw
          (
            alone,
            creating_step,
            clear_tables,
            on_tables,
            pure,
            group_create,
            ◌>>=◌,
            read_in-clear s,
            n,
          )
          refl
    | inr ((_, s1), f) ↦ elim (Bool-cases (contains group s1.tables.groups)) [
      | inl k ↦
          rw
            (
              alone,
              creating_step,
              clear_tables,
              on_tables,
              pure,
              group_create,
              ◌>>=◌,
              read_in-clear s,
              f,
              k,
            )
            refl
      | inr k ↦
          rw
            (
              alone,
              creating_step,
              clear_tables,
              on_tables,
              pure,
              group_create,
              ◌>>=◌,
              read_in-clear s,
              f,
              k,
            )
            (copied_then (written s1))
    ]
  ]
