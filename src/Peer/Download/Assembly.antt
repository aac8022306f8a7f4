-- ===== src/Peer/Download/Assembly.antt =====
-- The file that the threads of a download put together.
use torrent_based_file_shari.Common.{
  ℕ, ◌+◌, ◌-◌, ◌*◌, ◌/◌, ◌≤◌, ◌<◌, ◌≡◌, refl, sym, ap, ◌∙◌, subst, inl, inr, Bool, true, false,
  List, [], ◌∷◌, ◌++◌, arith, if◌then◌else◌, length, length-drop, drop, take-append-drop,
  lt-length-take, join, All, get_elem?, Text,
}
use torrent_based_file_shari.Peer.Files.{
  fwrite_at, within, get_elem?-fwrite_at, length-fwrite_at, eq_of_get_elem?,
}
use torrent_based_file_shari.Peer.Pieces.{chunk_size}
use torrent_based_file_shari.Peer.Server.{send_from, small_chunk_size}
use torrent_based_file_shari.Peer.Server.Sending.{send_from_lem}
use torrent_based_file_shari.Peer.Download.Writes.{
  Write, writes_of, all_writes, Occurs, All-Occurs, Occurs-All, NonEmpty, Honest, writes_of-Honest,
  writes_of-covers,
}

-- One honest write: what it changes.
get_elem?-Honest :
    (source file : Text) (p : ℕ) (text : Text)
    → length file ≡ length source
    → Honest source (p, text)
    → (k : ℕ)
    → get_elem? (fwrite_at p text file) k
      ≡ (if within p (length text) k then get_elem? source k else get_elem? file k)
get_elem?-Honest source file p text h (l, e) k =
    ap (λ t. get_elem? (fwrite_at p t file) k) e
    ∙ get_elem?-fwrite_at p (length text) source file h l k

length-Honest :
    (source file : Text) (p : ℕ) (text : Text)
    → length file ≡ length source
    → Honest source (p, text)
    → length (fwrite_at p text file) ≡ length source
length-Honest source file p text h (l, e) =
    ap (λ t. length (fwrite_at p t file)) e ∙ length-fwrite_at p (length text) source file h l ∙ h

module _ (source : Text) where
  length-all_writes :
      (ws : List Write) (file : Text)
      → length file ≡ length source
      → All (Honest source) ws
      → length (all_writes ws file) ≡ length source
  unfolding all_writes
  length-all_writes [] file h a = h
  length-all_writes ((p, text) ∷ ws) file h (a, as') =
      length-all_writes ws (fwrite_at p text file) (length-Honest source file p text h a) as'

  -- A byte that is right stays right.
  all_writes-keeps :
      (ws : List Write) (file : Text) (k : ℕ)
      → length file ≡ length source
      → All (Honest source) ws
      → get_elem? file k ≡ get_elem? source k
      → get_elem? (all_writes ws file) k ≡ get_elem? source k
  unfolding all_writes
  all_writes-keeps [] file k h a e = e
  all_writes-keeps ((p, text) ∷ ws) file k h (a, as') e =
      all_writes-keeps ws (fwrite_at p text file) k (length-Honest source file p text h a) as' (
        get_elem?-Honest source file p text h a k
        ∙ ap (λ x. if within p (length text) k then get_elem? source k else x) e
        ∙ same (within p (length text) k))
    where
      same :
          (b : Bool) → (if b then get_elem? source k else get_elem? source k) ≡ get_elem? source k
      same true = refl
      same false = refl

  -- A byte in one of the writes becomes right.
  all_writes-brings :
      (ws : List Write) (file : Text) (k : ℕ) (w : Write)
      → length file ≡ length source
      → All (Honest source) ws
      → Occurs w ws
      → within w.0 (length w.1) k ≡ true
      → get_elem? (all_writes ws file) k ≡ get_elem? source k
  unfolding all_writes
  all_writes-brings [] file k w h a o i = absurd o
  all_writes-brings ((p, text) ∷ ws) file k w h (a, as') (inl e) i =
      let hit : within p (length text) k ≡ true =
        subst (λ (v : Write). within v.0 (length v.1) k ≡ true) e i in
      all_writes-keeps ws (fwrite_at p text file) k (length-Honest source file p text h a) as' (
        get_elem?-Honest source file p text h a k
        ∙ ap (λ b. if b then get_elem? source k else get_elem? file k) hit)
  all_writes-brings ((p, text) ∷ ws) file k w h (a, as') (inr o) i =
      all_writes-brings ws (fwrite_at p text file) k w (length-Honest source file p text h a) as' o
        i

  -- A piece of the file, as the bytes that a seeder's `TransferFunction` sends for it, in the parts in
  -- which `recv` gave them.
  abbrev pub Arrives : ℕ → List Text → Type 0
  Arrives i parts = (join parts ≡ send_from (i * chunk_size) source) × NonEmpty parts

  Arrives-Honest :
      (i : ℕ) (parts : List Text)
      → i * chunk_size < length source
      → Arrives i parts
      → All (Honest source) (writes_of (i * chunk_size) chunk_size parts)
  Arrives-Honest i parts l (e, n) =
      let left = drop (i * chunk_size) source in
      writes_of-Honest source (i * chunk_size) chunk_size parts
        (drop (chunk_size + small_chunk_size) left) (omega arith)
        (sym (take-append-drop (chunk_size + small_chunk_size) left)
          ∙ ap (λ t. t ++ drop (chunk_size + small_chunk_size) left)
              (sym (e ∙ send_from_lem (i * chunk_size) source)))

  Arrives-covers :
      (i : ℕ) (parts : List Text) (k : ℕ)
      → Arrives i parts
      → i * chunk_size ≤ k
      → k < i * chunk_size + chunk_size
      → k < length source
      → (w : Write) × Occurs w (writes_of (i * chunk_size) chunk_size parts)
        × (within w.0 (length w.1) k ≡ true)
  Arrives-covers i parts k (e, n) l u f =
      let left = drop (i * chunk_size) source in
      writes_of-covers (i * chunk_size) chunk_size parts k n l u (
        omega (
          arith,
          lt-length-take (k - i * chunk_size) (chunk_size + small_chunk_size) left (omega arith)
              (omega (arith, length-drop (i * chunk_size) source)),
          ap length (e ∙ send_from_lem (i * chunk_size) source),
        ))

  -- However the writes of the threads are interleaved or repeated, and whatever was in the file before: if
  -- the file has the length of the source, and every piece of the source is received as a seeder of the
  -- source sends it, in non-empty parts, the download is the source. The writes that are made are those
  -- of the pieces, each at least once, in any order.
  pub all_writes-assembles :
      (file : Text) (parts : ℕ → List Text) (ws : List Write)
      → length file ≡ length source
      → ((i : ℕ) → i * chunk_size < length source → Arrives i (parts i))
      → ((w : Write)
          → Occurs w ws
          → (i : ℕ) × (i * chunk_size < length source)
            × Occurs w (writes_of (i * chunk_size) chunk_size (parts i)))
      → ((i : ℕ)
          → i * chunk_size < length source
          → (w : Write) → Occurs w (writes_of (i * chunk_size) chunk_size (parts i))
          → Occurs w ws)
      → all_writes ws file ≡ source
  all_writes-assembles file parts ws h arrive only all_ =
      eq_of_get_elem? (all_writes ws file) source (length-all_writes ws file h honest) λ k l.
        let i = k / chunk_size in
        let (w, o, hit) =
          Arrives-covers i (parts i) k (arrive i (omega arith)) (omega arith) (omega arith) l in
        all_writes-brings ws file k w h honest (all_ i (omega arith) w o) hit
    where
      honest : All (Honest source) ws
      honest = All-Occurs (Honest source) ws λ w o.
          let (i, l, o') = only w o in
          Occurs-All (Honest source) (writes_of (i * chunk_size) chunk_size (parts i)) w
            (Arrives-Honest i (parts i) l (arrive i l)) o'
