-- ===== src/Sync/Exchange.antt =====
-- What the receiver of a file has after the exchange, whatever its length.
use torrent_based_file_shari.Common.{
  ⊤, ℕ, ◌^◌, ◌≡◌, ◌≢◌, refl, sym, ap, ◌∙◌, inl, inr, Option, none, some, List, [], ◌∷◌, ◌++◌,
  append-nil, append_assoc, arith, join, length, length-append, join-append, All, All-map,
  All-append, blocks, Text, eq_text_refl, eq_text_of_ne, newline,
}
use torrent_based_file_shari.Common.Strings.Split.{Lacks}
use torrent_based_file_shari.Sync.{
  max_size, sync_over, file_bytes, getlines_from, getlines, file_blocks, sync_send, sync_loop,
  sync_recv,
}
use torrent_based_file_shari.Sync.Blocks.{join-blocks, IsBlock, blocks-IsBlock}
use torrent_based_file_shari.Tracker.State.{
  Disk, write, Tracker, push, on_disk, expect, sync, ◌>>=◌,
}

-- The last character of a text, and `d` if there is none.
last_or : ℕ → Text → ℕ
last_or d [] = d
last_or d (c ∷ cs) = last_or c cs

last_or-append : (d : ℕ) (x y : Text) → last_or d (x ++ y) ≡ last_or (last_or d x) y
unfolding last_or
last_or-append d [] y = refl
last_or-append d (c ∷ x) y = last_or-append c x y

last_or-file_bytes : (ls : List Text) → last_or 10 (file_bytes ls) ≡ 10
unfolding last_or
last_or-file_bytes [] = refl
last_or-file_bytes (l ∷ ls) = last_or-append 10 l (newline ++ file_bytes ls) ∙ last_or-file_bytes ls

-- A file of lines does not end with the end mark.
file_bytes-ne-mark : (ls : List Text) (before : Text) → file_bytes ls ≢ before ++ sync_over
unfolding last_or
file_bytes-ne-mark ls before e =
    let p : 10 ≡ last_or (last_or 10 before) sync_over =
      sym (last_or-file_bytes ls) ∙ ap (last_or 10) e ∙ last_or-append 10 before sync_over in
    omega arith

getlines_from-line :
    (temp l rest : Text)
    → Lacks 10 l
    → getlines_from temp (l ++ 10 ∷ rest) ≡ (temp ++ l) ∷ getlines_from [] rest
unfolding getlines_from
getlines_from-line temp [] rest h = rw append-nil
getlines_from-line temp (c ∷ l) rest h =
    rw (h.0, getlines_from)
      (getlines_from-line (temp ++ c ∷ []) l rest h.1
        ∙ ap (λ t. t ∷ getlines_from [] rest) (append_assoc temp (c ∷ []) l))

pub getlines-file_bytes : (ls : List Text) → All (Lacks 10) ls → getlines (file_bytes ls) ≡ ls
unfolding getlines
getlines-file_bytes [] h = refl
getlines-file_bytes (l ∷ ls) h =
    getlines_from-line [] l (file_bytes ls) h.0 ∙ ap (λ r. l ∷ r) (getlines-file_bytes ls h.1)

sync_loop-append :
    (out : Text) (ms : List Text)
    → All (λ m. m ≢ sync_over) ms
    → sync_loop out (ms ++ sync_over ∷ []) ≡ some (out ++ join ms)
unfolding sync_loop
sync_loop-append out [] h = rw (eq_text_refl sync_over, append-nil) refl
sync_loop-append out (m ∷ ms) h =
    rw (eq_text_of_ne m sync_over h.0, sync_loop)
      (sync_loop-append (out ++ m) ms h.1 ∙ ap some (append_assoc out m (join ms)))

-- OpenSSL cuts what one `SSL_write` is given into records of 2^14 bytes and a shorter last one, and
-- one `SSL_read` gives the bytes of one record.
abbrev pub CutsRecords : (Text → List Text) → Type 0
CutsRecords records = (t : Text) → records t ≡ file_blocks (2 ^ 14) t

module _ (records : Text → List Text) (cuts : CutsRecords records) where
  -- What the reads of the receiver give, for the writes of the sender.
  abbrev pub reads : List Text → List Text
  reads [] = []
  reads (w ∷ ws) = records w ++ reads ws

  join-reads : (ws : List Text) → join (reads ws) ≡ join ws
  unfolding file_blocks
  join-reads [] = refl
  join-reads (w ∷ ws) =
      join-append (records w) (reads ws)
      ∙ ap (λ r. join r ++ join (reads ws)) (cuts w)
      ∙ ap (λ r. r ++ join (reads ws))
          (join-blocks (length w) (2 ^ 14) w (omega arith) (omega arith))
      ∙ ap (λ r. w ++ r) (join-reads ws)

  reads-append : (ws vs : List Text) → reads (ws ++ vs) ≡ reads ws ++ reads vs
  reads-append [] vs = refl
  reads-append (w ∷ ws) vs =
      ap (λ r. records w ++ r) (reads-append ws vs)
      ∙ sym (append_assoc (records w) (reads ws) (reads vs))

  -- A record of a block of the file is not the end mark.
  record-ne-mark :
      (ls : List Text) (b r : Text)
      → IsBlock max_size (file_bytes ls) b
      → IsBlock (2 ^ 14) b r
      → r ≢ sync_over
  record-ne-mark ls b r hb (inl full) e = omega (arith, ap length e)
  record-ne-mark ls b r (inl full) (inr (x, k, p, l)) e =
      omega (arith, ap length p, length-append x r, ap length e)
  record-ne-mark ls b r (inr (y, j, q, m)) (inr (x, k, p, l)) e =
      file_bytes-ne-mark ls (y ++ x)
        (q ∙ ap (λ t. y ++ t) (p ∙ ap (λ t. x ++ t) e) ∙ sym (append_assoc y x sync_over))

  records-NotMark :
      (ls : List Text) (b : Text)
      → IsBlock max_size (file_bytes ls) b
      → All (λ r. r ≢ sync_over) (records b)
  unfolding file_blocks
  records-NotMark ls b hb =
      rw (cuts b) (All-map (λ r. record-ne-mark ls b r hb) _ (blocks-IsBlock (length b) (2 ^ 14) b))

  reads-NotMark :
      (ls : List Text) (bs : List Text)
      → All (IsBlock max_size (file_bytes ls)) bs
      → All (λ r. r ≢ sync_over) (reads bs)
  reads-NotMark ls [] h = tt
  reads-NotMark ls (b ∷ bs) h =
      All-append _ (records b) (reads bs) (records-NotMark ls b h.0) (reads-NotMark ls bs h.1)

  records-mark : records sync_over ≡ sync_over ∷ []
  unfolding file_blocks
  records-mark = cuts sync_over

  sync_loop-sync_send :
      (ls : List Text) → sync_loop [] (reads (sync_send (file_bytes ls))) ≡ some (file_bytes ls)
  unfolding sync_send file_blocks
  sync_loop-sync_send ls =
      let bytes = file_bytes ls in
      let bs = blocks (length bytes) max_size bytes in
      rw (reads-append bs (sync_over ∷ []), records-mark)
        (sync_loop-append [] (reads bs)
            (reads-NotMark ls bs (blocks-IsBlock (length bytes) max_size bytes))
          ∙ ap some (
              join-reads bs
              ∙ join-blocks (length bytes) max_size bytes (omega arith) (omega arith)))

  -- The receiving tracker runs `SyncRecv` on what the sending tracker writes for a file whose lines
  -- hold no newline. It ends, and its files are then the ones that the sender's `sync` records for its
  -- sibling.
  pub sync_recv-refines-sync :
      (file : Text) (ls : List Text) (sender receiver : Tracker)
      → All (Lacks 10) ls
      → sender.disk file ≡ some ls
      → sender.sibling ≡ some receiver.disk
      → (d : Disk) × (sync_recv file (reads (sync_send (file_bytes ls))) receiver
          ≡ some (tt, record receiver { disk = d }))
        × (sync file sender ≡ some (tt, record sender { sibling = some d }))
        × (d file ≡ some ls)
  unfolding sync_recv sync expect on_disk ◌>>=◌ write
  sync_recv-refines-sync file ls sender receiver plain there other = (
    write file ls receiver.disk,
    rw (sync_loop-sync_send ls, getlines-file_bytes ls plain) refl,
    ap recorded pushed,
    rw (eq_text_refl file) refl,
  )
    where
      recorded : Option (Option Disk) → Option (⊤ × Tracker)
      recorded none = none
      recorded (some e) = some (tt, record sender { sibling = e })

      pushed :
          push file (sender.disk file) sender.sibling ≡ some (some (write file ls receiver.disk))
      pushed = ap (λ c. push file c sender.sibling) there ∙ ap (push file (some ls)) other
