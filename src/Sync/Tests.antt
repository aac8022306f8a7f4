-- ===== src/Sync/Tests.antt =====
-- The exchange of one small file between the two trackers.
use torrent_based_file_shari.Common.{
  ◌^◌, ◌≡◌, refl, inl, inr, none, some, List, [], ◌∷◌, Text, codes, eq_text,
}
use torrent_based_file_shari.Tracker.State.{
  Disk, write, Tables, Tracker, sync, online_file, credential_file, group_file, pending_file,
}
use torrent_based_file_shari.Tracker.Fetch.{load, create_files}
use torrent_based_file_shari.Tracker.Safety.Rules.{Runs}
use torrent_based_file_shari.Sync.{sync_all_handler}
use torrent_based_file_shari.Sync.All.{sync_all_handler-load}
use torrent_based_file_shari.Sync.{file_blocks, file_bytes, sync_send, sync_recv}
use torrent_based_file_shari.Sync.Exchange.{reads, sync_recv-refines-sync}

abbrev cut : Text → List Text
cut t = file_blocks (2 ^ 14) t

abbrev empty : Disk
empty p = none

abbrev no_tables : Tables
no_tables = record { credentials = []; online = []; online_users = []; groups = []; pending = [] }

abbrev content : List Text
content = codes "bob ::1 9" ∷ []

abbrev receiver : Tracker
receiver = record { disk = empty; tables = no_tables; group_members = []; sibling = none }

abbrev sender : Tracker
sender = record {
  disk = write online_file content empty;
  tables = no_tables;
  group_members = [];
  sibling = some empty;
}

sync_recv-refines-sync_example :
    (d : Disk) × (sync_recv online_file
        (reads cut (λ t. refl) (sync_send (file_bytes content)))
        receiver
      ≡ some (tt, record receiver { disk = d }))
    × (sync online_file sender ≡ some (tt, record sender { sibling = some d }))
    × (d online_file ≡ some content)
unfolding write eq_text
sync_recv-refines-sync_example =
    sync_recv-refines-sync cut (λ t. refl) online_file content sender receiver
      ((refl, (refl, (refl, (refl, (refl, (refl, (refl, (refl, (refl, tt))))))))), tt) refl refl

-- The entries of `.all_files` at a tracker with the four files.
abbrev four : List Text
four =
    codes "."
    ∷ codes ".credential.txt"
    ∷ codes ".."
    ∷ codes ".online.txt"
    ∷ codes ".group.txt"
    ∷ codes ".pending.txt"
    ∷ []

abbrev full : Tracker
full = record sender {
  disk =
      write credential_file []
        (write group_file [] (write pending_file [] (write online_file content empty)));
}

sync_all_handler-load_example : Runs (sync_all_handler four) full (λ _ s'.
    (e' : Disk) × (s'.sibling ≡ some e') × (load (create_files e') ≡ load (create_files full.disk)))
unfolding write eq_text
sync_all_handler-load_example =
    sync_all_handler-load four full empty refl
      (inl refl, (inr (_, refl), (inl refl, (inr (_, refl), (inr (_, refl), (inr (_, refl), tt))))))
      (refl, (refl, (refl, (refl, tt))))
