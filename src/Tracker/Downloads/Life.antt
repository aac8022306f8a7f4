-- ===== src/Tracker/Downloads/Life.antt =====
-- The life of a download at the tracker: `SendSHA` lists it as running, `CompleteDownload` as complete,
-- and `ShowDownloads` shows the two lists.
use torrent_based_file_shari.Common.{
  ◌≡◌, refl, sym, ap, ap₂, subst, ◌∙◌, Bool, true, false, not, ◌&&◌, none, some, List, [], ◌∷◌,
  ◌++◌, if◌then◌else◌, keep, Text, codes, eq_text, eq_text_refl, eq_text-append_left, contains,
  mem_text,
}
use torrent_based_file_shari.Tracker.State.{
  Disk, lines, downloading_file, downloaded_file, members_file, shared_file, temp_file, Tables,
  Tracker, M, ◌>>=◌,
}
use torrent_based_file_shari.Tracker.Fetch.{load, create_files, members}
use torrent_based_file_shari.Tracker.Files.{delete_line, replace_by_temp}
use torrent_based_file_shari.Tracker.Files.Deletion.{
  lines-replace_by_temp, lines-create_files, Runs-fetch_details,
}
use torrent_based_file_shari.Tracker.Groups.{two_words}
use torrent_based_file_shari.Tracker.Groups.Membership.{is_member}
use torrent_based_file_shari.Tracker.Downloads.{
  give_hash, send_sha, complete_download, marked, show_downloads,
}
use torrent_based_file_shari.Tracker.Safety.Rules.{
  Runs, Exists, Runs-bind, Runs-get, Runs-pure, Runs-when, Runs-on_disk, Runs-on_disk_last,
  Runs-sync, Runs-sync_last, Runs-expect, Runs-read_lines, Runs-weaken, Runs-both,
}
use torrent_based_file_shari.Tracker.Safety.Disk.{lines-write_self, lines-write_other}
use torrent_based_file_shari.Tracker.Safety.Searches.{Has-hashes_of}
use torrent_based_file_shari.Tracker.Safety.Fetching.{
  IsGood, Good, create_files-IsGood, Exists-write, Exists-write_self, Exists-replace_by_temp_self,
  Runs-members,
}
use torrent_based_file_shari.Tracker.Safety.Downloads.{send_sha-Good, complete_download-Good}

module _ (group name user : Text) where
  abbrev line : Text
  line = two_words group name

  -- The two lists of a user after a change.
  abbrev pub Lists : List Text → List Text → Disk → Type 0
  Lists running_ complete_ d =
      (lines d (downloading_file user) ≡ running_) × (lines d (downloaded_file user) ≡ complete_)

  downloading-ne-downloaded : eq_text (downloading_file user) (downloaded_file user) ≡ false
  unfolding eq_text
  downloading-ne-downloaded =
      eq_text-append_left user (codes "_downloading.txt") (codes "_downloaded.txt")

  downloaded-ne-downloading : eq_text (downloaded_file user) (downloading_file user) ≡ false
  unfolding eq_text
  downloaded-ne-downloading =
      eq_text-append_left user (codes "_downloaded.txt") (codes "_downloading.txt")

  -- Whether `SendSHA` lists the download: the group is known and the user is a member.
  abbrev pub begins : Tables → Disk → Bool
  begins t d = contains group t.groups && is_member group user d

  abbrev pub with_line : Bool → List Text → List Text
  with_line new ls = if new then ls ++ line ∷ [] else ls

  give_hash-Lists :
      (s : Tracker)
      → IsGood s.disk
      → Runs (give_hash group name user) s (λ _ s'.
        Lists
          (lines s.disk (downloading_file user) ++ line ∷ [])
          (lines s.disk (downloaded_file user))
          s'.disk)
  unfolding give_hash
  give_hash-Lists s h =
      let (r, e) = Has-hashes_of [] (lines s.disk (shared_file group)) (h.safe.shared group) in
      Runs-read_lines _ _ (
        Runs-expect _ r e (
          Runs-on_disk _ _ (
            Runs-sync _ _ (Exists-write_self (downloading_file user) _ s.disk) λ _. Runs-pure _ (
              lines-write_self (downloading_file user) _ s.disk,
              lines-write_other (downloading_file user) (downloaded_file user) _ s.disk
                  downloading-ne-downloaded,
            ))))

  send_sha-Lists :
      (s : Tracker) (t : Tables)
      → IsGood s.disk
      → load (create_files s.disk) ≡ some t
      → Runs (send_sha group name user) s (λ _ s'.
        Lists
          (with_line (begins t s.disk) (lines s.disk (downloading_file user)))
          (lines s.disk (downloaded_file user))
          s'.disk)
  unfolding send_sha
  send_sha-Lists s t h loaded = Runs-bind _ _ (Runs-fetch_details s h.safe) λ _ s1 (made, e, _).
      let tables : s1.tables ≡ t =
        let both : some s1.tables ≡ some t = sym e ∙ ap load made ∙ loaded in cc in
      let same = λ (q : Text). ap (λ d. lines d q) made ∙ lines-create_files q s.disk in
      let of_tables = λ (b : Bool) (k : contains group s1.tables.groups ≡ b).
        ap (λ x. contains group x.groups) (sym tables) ∙ k in
      let of_members =
        λ (b : Bool) (k : mem_text user (members [] (lines s1.disk (members_file group))) ≡ b).
          ap (λ ls. mem_text user (members [] ls)) (sym (same (members_file group))) ∙ k in
      let running_ = lines s.disk (downloading_file user) in
      let unlisted : begins t s.disk ≡ false
          → Lists (with_line (begins t s.disk) running_) (lines s.disk (downloaded_file user))
              s1.disk =
        λ no_. (
          same (downloading_file user) ∙ ap (λ b. with_line b running_) (sym no_),
          same (downloaded_file user),
        ) in
      let good : IsGood s1.disk = subst IsGood (sym made) (create_files-IsGood s.disk h.safe) in
      Runs-get _ (
        Runs-when _ _ _
          (λ known. Runs-members group _ (
            Runs-get _ (
              Runs-when _ _ _
                (λ member_.
                  Runs-weaken
                    (give_hash-Lists
                      (record s1 {
                        group_members = members [] (lines s1.disk (members_file group));
                      })
                      good)
                    λ _ s2 l. (
                      l.0
                          ∙ ap (λ ls. ls ++ line ∷ []) (same (downloading_file user))
                          ∙ ap (λ b. with_line b running_)
                              (sym (
                                ap₂ (λ a b. a && b) (of_tables true known)
                                  (of_members true member_))),
                      l.1 ∙ same (downloaded_file user),
                    ))
                λ stranger. Runs-pure _ (
                  unlisted
                    (ap₂ (λ a b. a && b) (of_tables true known) (of_members false stranger))))))
          λ unknown.
            Runs-pure _
              (unlisted (ap (λ a. a && is_member group user s.disk) (of_tables false unknown))))

  complete_download-Lists :
      (s : Tracker)
      → IsGood s.disk
      → Runs (complete_download group name user) s (λ _ s'.
        Lists
          (keep (λ l. not (eq_text l line)) (lines s.disk (downloading_file user)))
          (lines s.disk (downloaded_file user) ++ line ∷ [])
          s'.disk)
  unfolding complete_download delete_line eq_text
  complete_download-Lists s h = Runs-bind _ _ (Runs-fetch_details s h.safe) λ _ s1 (made, e, _).
      let running_ = downloading_file user in
      let complete_ = downloaded_file user in
      let kept = keep (λ l. not (eq_text l line)) (lines s1.disk running_) in
      let same = λ (q : Text). ap (λ d. lines d q) made ∙ lines-create_files q s.disk in
      let good : IsGood s1.disk = subst IsGood (sym made) (create_files-IsGood s.disk h.safe) in
      let deleted = replace_by_temp running_ kept s1.disk in
      let no_temp : s1.disk temp_file ≡ none = good.safe.no_temp in
      Runs-bind _ _ {P = λ _ s2. s2.disk ≡ deleted} (Runs-read_lines _ _ (Runs-on_disk_last _ refl))
        λ _ s2 is.
          let there : Exists s2.disk running_ =
            subst (λ d. Exists d running_) (sym is)
              (Exists-replace_by_temp_self running_ kept s1.disk refl) in
          Runs-on_disk _ _ (
            Runs-sync _ _ (Exists-write_self complete_ _ s2.disk) λ _.
              Runs-sync_last _ (Exists-write complete_ running_ _ s2.disk there) λ _. (
                lines-write_other complete_ running_ _ s2.disk downloaded-ne-downloading
                    ∙ ap (λ d. lines d running_) is
                    ∙ lines-replace_by_temp running_ running_ kept s1.disk no_temp refl
                    ∙ ap (λ b. if b then kept else lines s1.disk running_) (eq_text_refl running_)
                    ∙ ap (keep (λ l. not (eq_text l line))) (same running_),
                lines-write_self complete_ _ s2.disk
                    ∙ ap (λ ls. ls ++ line ∷ [])
                        (ap (λ d. lines d complete_) is
                          ∙ lines-replace_by_temp running_ complete_ kept s1.disk no_temp refl
                          ∙ ap (λ b. if b then kept else lines s1.disk complete_)
                              downloading-ne-downloaded
                          ∙ same complete_),
              ))

  show_downloads-Lists :
      (s : Tracker) (running_ complete_ : List Text)
      → IsGood s.disk
      → Lists running_ complete_ s.disk
      → Runs
          (show_downloads user)
          s
          (λ r _. r ≡ marked (codes "[D] ") running_ ++ marked (codes "[C] ") complete_)
  unfolding show_downloads
  show_downloads-Lists s running_ complete_ h l =
      Runs-bind _ _ (Runs-fetch_details s h.safe) λ _ s1 (made, e, _).
        let same = λ (q : Text). ap (λ d. lines d q) made ∙ lines-create_files q s.disk in
        Runs-read_lines _ _ (
          Runs-read_lines _ _ (
            Runs-pure _ (
              ap₂ (λ a b. marked (codes "[D] ") a ++ marked (codes "[C] ") b)
                (same (downloading_file user) ∙ l.0) (same (downloaded_file user) ∙ l.1))))

  Shown-both :
      {A : Type 0} {m : M A} {s : Tracker} {running_ complete_ : List Text}
      → Runs m s (λ _ s'. Lists running_ complete_ s'.disk)
      → Runs m s Good
      → Runs m s (λ _ s'. Lists running_ complete_ s'.disk × IsGood s'.disk)
  Shown-both l g = Runs-both l g λ a s' lists good. (lists, good)

  -- On good files, whose tables are `t`: after `SendSHA`, `ShowDownloads` shows the file as running exactly once
  -- more than before if the group is known and the user is a member, and as before otherwise; after
  -- `CompleteDownload` it shows the file as complete once more, and no longer as running.
  pub show_downloads-complete_download :
      (s : Tracker) (t : Tables)
      → IsGood s.disk
      → load (create_files s.disk) ≡ some t
      → Runs (send_sha group name user >>= λ _. show_downloads user) s (λ r _.
        r
        ≡ marked (codes "[D] ") (with_line (begins t s.disk) (lines s.disk (downloading_file user)))
          ++ marked (codes "[C] ") (lines s.disk (downloaded_file user)))
        × Runs (complete_download group name user >>= λ _. show_downloads user) s (λ r _.
          r
          ≡ marked
              (codes "[D] ")
              (keep (λ l. not (eq_text l line)) (lines s.disk (downloading_file user)))
            ++ marked (codes "[C] ") (lines s.disk (downloaded_file user) ++ line ∷ []))
  show_downloads-complete_download s t h loaded = (
    Runs-bind _ _ (Shown-both (send_sha-Lists s t h loaded) (send_sha-Good group name user s h))
        λ _ s1 (l, g). show_downloads-Lists s1 _ _ g l,
    Runs-bind _ _
        (Shown-both (complete_download-Lists s h) (complete_download-Good group name user s h))
        λ _ s1 (l, g). show_downloads-Lists s1 _ _ g l,
  )
