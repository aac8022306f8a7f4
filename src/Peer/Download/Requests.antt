-- ===== src/Peer/Download/Requests.antt =====
-- A request for a piece on its way from `DownloadKernel` to another peer's `TransferFunction`.
use torrent_based_file_shari.Common.{
  ℕ, ◌*◌, ◌^◌, ◌<◌, ◌≡◌, refl, sym, ap, ◌∙◌, Bool, true, Option, some, List, [], ◌∷◌, ◌++◌,
  append_assoc, arith, ltb, Text, codes, eq_text, split, words, Table,
}
use torrent_based_file_shari.Common.Decimal.{ℤ, pos, to_string, atoi-to_string, to_string-Digit}
use torrent_based_file_shari.Common.Strings.Split.{Lacks, split-append, split-Lacks, split-field}
use torrent_based_file_shari.Common.Strings.Words.{words-more}
use torrent_based_file_shari.Peer.Agreement.{is_word_sound}
use torrent_based_file_shari.Peer.Client.{get_file_path}
use torrent_based_file_shari.Peer.Pieces.{chunk_size}
use torrent_based_file_shari.Peer.Server.{
  drop_last, conv, check_tracker, send_from, transfer_function, client_server_kernel,
}
use torrent_based_file_shari.Peer.Download.{FileData, tracker_data, server_path, send_chunk_line}
use torrent_based_file_shari.Peer.Download.Numbers.{Digit-Lacks, drop_last-append}

pub number-Lacks : (n : ℕ) → Lacks 32 (to_string n)
number-Lacks n = Digit-Lacks (to_string n) (to_string-Digit n)

-- A line of the file with the trackers.
abbrev pub tracker_line : Text × ℕ → Text
tracker_line (ip, port) = ip ++ 32 ∷ to_string port

split-tracker_line :
    (ip : Text) (port : ℕ)
    → Lacks 32 ip
    → split (tracker_line (ip, port)) 32 ≡ ip ∷ to_string port ∷ []
split-tracker_line ip port h =
    split-field ip (to_string port) h
    ∙ ap (λ l. ip ∷ l) (split-Lacks 32 (to_string port) (number-Lacks port))

abbrev pub two_trackers : Text × ℕ → Text × ℕ → Text
two_trackers (ip, port) (ip', port') =
    ip ++ 32 ∷ (to_string port ++ 32 ∷ (ip' ++ 32 ∷ to_string port'))

pub server_path_lem :
    (t t' : Text × ℕ)
    → Lacks 32 t.0
    → Lacks 32 t'.0
    → server_path (tracker_line t ∷ tracker_line t' ∷ []) ≡ some (two_trackers t t')
unfolding server_path tracker_data
server_path_lem (ip, port) (ip', port') h h' =
    rw (split-tracker_line ip port h, split-tracker_line ip' port' h')
      (ap some (
        ap drop_last (
          ap (λ r. ip ++ 32 ∷ (to_string port ++ 32 ∷ r))
            (sym (append_assoc ip' (32 ∷ to_string port') (32 ∷ [])))
          ∙ ap (λ r. ip ++ 32 ∷ r)
              (sym (append_assoc (to_string port) (32 ∷ (ip' ++ 32 ∷ to_string port')) (32 ∷ [])))
          ∙ sym (
              append_assoc ip (32 ∷ (to_string port ++ 32 ∷ (ip' ++ 32 ∷ to_string port')))
                (32 ∷ [])))
        ∙ drop_last-append (two_trackers (ip, port) (ip', port')) 32))

module _ (meta : FileData) (chunk : ℕ) (seeder : Text) (t t' : Text × ℕ) where
  -- The words of the request have no blank in them.
  abbrev pub Plain : Type 0
  Plain =
      Lacks 32 meta.groupname × Lacks 32 meta.name × Lacks 32 seeder × Lacks 32 t.0 × Lacks 32 t'.0

  abbrev fields : List Text
  fields =
      codes "send_chunk"
      ∷ meta.groupname
      ∷ meta.name
      ∷ to_string chunk
      ∷ t.0
      ∷ to_string t.1
      ∷ t'.0
      ∷ to_string t'.1
      ∷ seeder
      ∷ []

  split-send_chunk_line :
      Plain
      → meta.serverpath ≡ two_trackers t t'
      → split (send_chunk_line meta chunk seeder) 32 ≡ fields
  split-send_chunk_line (g, n, u, h, h') e =
      ap
        (λ p.
          split
            (codes "send_chunk "
              ++ (meta.groupname
                  ++ (codes " "
                      ++ (meta.name
                          ++ (codes " "
                              ++ (to_string chunk
                                  ++ (codes " " ++ (p ++ (codes " " ++ seeder)))))))))
            32)
        e
      ∙ split-field (codes "send_chunk") _
          (refl, (refl, (refl, (refl, (refl, (refl, (refl, (refl, (refl, (refl, tt))))))))))
      ∙ ap (λ l. codes "send_chunk" ∷ l)
          (split-field meta.groupname _ g
            ∙ ap (λ l. meta.groupname ∷ l)
                (split-field meta.name _ n
                  ∙ ap (λ l. meta.name ∷ l)
                      (split-field (to_string chunk) _ (number-Lacks chunk)
                        ∙ ap (λ l. to_string chunk ∷ l) trackers)))
    where
      trackers :
          split (two_trackers t t' ++ 32 ∷ seeder) 32
          ≡ t.0 ∷ to_string t.1 ∷ t'.0 ∷ to_string t'.1 ∷ seeder ∷ []
      trackers =
          split-append 32 (two_trackers t t') seeder
          ∙ ap (λ l. l ++ split seeder 32)
              (split-field t.0 _ h
                ∙ ap (λ l. t.0 ∷ l)
                    (split-field (to_string t.1) _ (number-Lacks t.1)
                      ∙ ap (λ l. to_string t.1 ∷ l) (split-tracker_line t'.0 t'.1 h')))
          ∙ ap (λ l. t.0 ∷ to_string t.1 ∷ t'.0 ∷ to_string t'.1 ∷ l) (split-Lacks 32 seeder u)

  -- The request of a downloading peer, in the hands of the peer it asks, where no word of it has a blank,
  -- `serverpath` is what `ServerPath` makes of two trackers, and the ports and the place of the piece are
  -- below 2^31: that peer looks the file up at the first of the two trackers it can reach, in the name
  -- of the seeder, and if the file is there it sends what `TransferFunction` sends from the place of
  -- the piece on.
  pub client_server_kernel-send_chunk :
      (connects : Text × ℤ → Bool) (ask : Text × ℤ → Text → Option Text)
      (files : Text → Option Text) (filechunks_map : Table (List ℕ)) (bytes : Text)
      → Plain
      → server_path (tracker_line t ∷ tracker_line t' ∷ []) ≡ some meta.serverpath
      → t.1 < 2 ^ 31
      → t'.1 < 2 ^ 31
      → chunk * chunk_size < 2 ^ 31
      → files (
          get_file_path
            (ask (check_tracker connects ((t.0, pos t.1) ∷ (t'.0, pos t'.1) ∷ [])))
            meta.groupname
            meta.name
            seeder)
        ≡ some bytes
      → client_server_kernel connects ask files filechunks_map (send_chunk_line meta chunk seeder)
        ≡ some (send_from (chunk * chunk_size) bytes)
  unfolding client_server_kernel transfer_function conv eq_text
  client_server_kernel-send_chunk connects ask files filechunks_map bytes plain e p p' fits found =
      let path : some meta.serverpath ≡ some (two_trackers t t') =
        sym e ∙ server_path_lem t t' plain.3 plain.4 in
      let same : meta.serverpath ≡ two_trackers t t' = cc in
      let rest =
        meta.groupname
        ++ (codes " "
            ++ (meta.name
                ++ (codes " "
                    ++ (to_string chunk
                        ++ (codes " " ++ (meta.serverpath ++ (codes " " ++ seeder))))))) in
      let read : words (send_chunk_line meta chunk seeder) ≡ codes "send_chunk" ∷ words rest =
        words-more (codes "send_chunk") rest (is_word_sound (codes "send_chunk") refl) in
      let in_range : ltb (chunk * chunk_size) (2 ^ 31) ≡ true = ground arith in
      rw
        (
          read,
          split-send_chunk_line plain same,
          atoi-to_string t.1 p,
          atoi-to_string t'.1 p',
          found,
          atoi-to_string chunk (omega arith),
          in_range,
        )
        refl
