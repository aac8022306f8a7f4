-- ===== src/Peer/Download/Outcome.antt =====
-- The end of a download from seeders of the file.
use torrent_based_file_shari.Common.{
  ℕ, ◌*◌, ◌<◌, ◌≡◌, ap, ◌∙◌, true, some, List, length, Text, codes, eq_text_refl,
}
use torrent_based_file_shari.Peer.Pieces.{chunk_size, get_file_hash, get_file_hash2, match_sha}
use torrent_based_file_shari.Peer.Download.{FileData, Local}
use torrent_based_file_shari.Peer.Download.Writes.{Write, writes_of, all_writes, Occurs}
use torrent_based_file_shari.Peer.Download.Assembly.{Arrives, all_writes-assembles}
use torrent_based_file_shari.Peer.Download.Start.{verdict, download_end}

same_file :
    (sha1 : Text → List ℕ) (source : Text)
    → match_sha sha1 (some source) (get_file_hash sha1 (some source)).0 ≡ true
unfolding match_sha get_file_hash get_file_hash2
same_file sha1 source = eq_text_refl _

-- `DownloadFile` ends with "Full file matched" if the tracker can be told, the hash is that of the source, the new file has its
-- length, and the threads wrote, in any order, what seeders of the source send for every piece.
pub download_end-all_writes :
    (sha1 : Text → List ℕ) (source file : Text) (parts : ℕ → List Text) (ws : List Write)
    (meta : FileData) (s : Local)
    → meta.hash ≡ (get_file_hash sha1 (some source)).0
    → length file ≡ length source
    → s.file ≡ all_writes ws file
    → ((i : ℕ) → i * chunk_size < length source → Arrives source i (parts i))
    → ((w : Write)
        → Occurs w ws
        → (i : ℕ) × (i * chunk_size < length source)
          × Occurs w (writes_of (i * chunk_size) chunk_size (parts i)))
    → ((i : ℕ)
        → i * chunk_size < length source
        → (w : Write) → Occurs w (writes_of (i * chunk_size) chunk_size (parts i))
        → Occurs w ws)
    → (download_end sha1 meta s).0 ≡ codes "Full file matched"
unfolding download_end
download_end-all_writes sha1 source file parts ws meta s hash h e arrive only all_ =
    let whole : s.file ≡ source =
      e ∙ all_writes-assembles source file parts ws h arrive only all_ in
    ap verdict (
      ap (λ f. match_sha sha1 (some f) meta.hash) whole
      ∙ ap (match_sha sha1 (some source)) hash
      ∙ same_file sha1 source)
