-- ===== src/Tracker/Groups/Races/Files.antt =====
-- The files of a group that threads of tracker/tracker.cpp have written.
use torrent_based_file_shari.Common.{
  ◌≡◌, refl, sym, ap, ◌∙◌, some, [], Text, Option-cases, inl, inr,
}
use torrent_based_file_shari.Tracker.State.{
  Disk, lines, credential_file, online_file, pending_file, group_file, members_file, shared_file,
  Tracker,
}
use torrent_based_file_shari.Tracker.Fetch.{load_groups, create_files, create_missing}
use torrent_based_file_shari.Tracker.Files.Deletion.{lines-create_files}
use torrent_based_file_shari.Tracker.Groups.Races.{read_in}
use torrent_based_file_shari.Tracker.Safety.Rules.{
  Runs, Exists, Runs-get, Runs-on_disk, Runs-expect, Runs-on_tables_last,
}
use torrent_based_file_shari.Tracker.Safety.Lines.{Has-load_groups}
use torrent_based_file_shari.Tracker.Safety.Fetching.{
  IsGood, Has-load, create_files-IsGood, Exists-write, Exists-write_self,
}
use torrent_based_file_shari.Tracker.Safety.Groups.{made}

-- `FetchDetails` under the lock.
pub Runs-read_in :
    (s : Tracker)
    → IsGood s.disk
    → Runs read_in s (λ _ s'.
      (s'.disk ≡ create_files s.disk)
      × (load_groups s.tables.groups (lines s.disk group_file) ≡ some s'.tables.groups))
unfolding read_in
Runs-read_in s h =
    let good = create_files-IsGood s.disk h.safe in
    let same = lines-create_files group_file s.disk in
    let (t, e) = Has-load (create_files s.disk) good.safe in
    let (groups, e') =
      Has-load_groups s.tables.groups (lines (create_files s.disk) group_file) good.safe.groups in
    Runs-on_disk _ _ (
      Runs-get _ (
        Runs-expect _ t e (
          Runs-expect _ groups e'
            (Runs-on_tables_last _ (refl, ap (load_groups s.tables.groups) (sym same) ∙ e')))))

Exists-create_missing_keeps : (p q : Text) (d : Disk) → Exists d q → Exists (create_missing p d) q
Exists-create_missing_keeps p q d there = elim (Option-cases (d p)) [
  | inl e ↦ rw (e, create_missing) (Exists-write p q [] d there)
  | inr (ls, e) ↦ rw (e, create_missing) there
]

pub Exists-create_files : (q : Text) (d : Disk) → Exists d q → Exists (create_files d) q
unfolding create_files
Exists-create_files q d there =
    let d1 = create_missing credential_file d in
    let d2 = create_missing online_file d1 in
    let d3 = create_missing group_file d2 in
    Exists-create_missing_keeps pending_file q d3 (
      Exists-create_missing_keeps group_file q d2 (
        Exists-create_missing_keeps online_file q d1
          (Exists-create_missing_keeps credential_file q d there)))

module _ (group : Text) where
  pub made-Exists :
      (owner : Text) (d : Disk)
      → Exists (made group owner d) group_file
        × Exists (made group owner d) (members_file group)
        × Exists (made group owner d) (shared_file group)
  unfolding made
  made-Exists owner d = (
    search (Exists-write, Exists-write_self),
    search (Exists-write, Exists-write_self),
    search (Exists-write, Exists-write_self),
  )
