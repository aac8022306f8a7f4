-- ===== src/Peer/Download/Seeders.antt =====
-- What `DownloadFile` makes of the answers of the tracker.
use torrent_based_file_shari.Common.{
  ℕ, zero, suc, ◌-◌, ◌^◌, ◌<◌, ◌≡◌, ◌≢◌, refl, sym, ap, subst, ◌∙◌, inl, inr, Option, none, some,
  List, [], ◌∷◌, ◌++◌, append_assoc, arith, length, length-append, take, take-append_self,
  get_elem?, All, Text, codes, eq_text, eq_of_eq_text, split, Table, lookup, insert, each_with,
  Bool-cases,
}
use torrent_based_file_shari.Common.Decimal.{ℤ, to_string, atoi-to_string}
use torrent_based_file_shari.Common.Strings.Split.{Lacks, split-Lacks, split-field}
use torrent_based_file_shari.Tracker.Dispatch.{word}
use torrent_based_file_shari.Tracker.Downloads.{or_empty}
use torrent_based_file_shari.Tracker.Sharing.{seeders_reply}
use torrent_based_file_shari.Common.Sets.{lookup-insert_same}
use torrent_based_file_shari.Peer.Client.{give_sha_line, give_seeders_line, give_details_line}
use torrent_based_file_shari.Peer.Download.{FileData, address, server_path}
use torrent_based_file_shari.Peer.Download.Limits.{Named}
use torrent_based_file_shari.Peer.Download.Requests.{number-Lacks}
use torrent_based_file_shari.Peer.Download.Start.{downloading, fives, details_of, download_start}

lookup-insert_keeps :
    {V : Type 0} (of : Text → V) (k j : Text) (m : Table V)
    → lookup k m ≡ some (of k)
    → lookup k (insert j (of j) m) ≡ some (of k)
unfolding lookup insert
lookup-insert_keeps of k j [] h = let bad : none ≡ some (of k) = h in cc
lookup-insert_keeps of k j ((i, w) ∷ m) h = elim (Bool-cases (eq_text i j)) [
  | inl e ↦ elim (Bool-cases (eq_text i k)) [
    | inl f ↦
        let same : j ≡ k = sym (eq_of_eq_text i j e) ∙ eq_of_eq_text i k f in
        rw (e, lookup, insert, f) (ap (λ t. some (of t)) same)
    | inr f ↦ rw (e, lookup, insert, f) (rw (f, lookup) at h)
  ]
  | inr e ↦ elim (Bool-cases (eq_text i k)) [
    | inl f ↦ rw (e, lookup, insert, f) (rw (f, lookup) at h)
    | inr f ↦ rw (e, lookup, insert, f) (lookup-insert_keeps of k j m (rw (f, lookup) at h))
  ]
]

-- The fields of the list of seeders.
split-each_with :
    (us : List Text) (size : Text)
    → All (Lacks 32) us
    → Lacks 32 size
    → split (each_with (codes " ") us ++ size) 32 ≡ us ++ size ∷ []
split-each_with [] size h l = split-Lacks 32 size l
split-each_with (u ∷ us) size (hu, h) l =
    ap (λ t. split t 32) (append_assoc u (32 ∷ each_with (codes " ") us) size)
    ∙ split-field u (each_with (codes " ") us ++ size) hu
    ∙ ap (λ l. u ∷ l) (split-each_with us size h l)

get_elem?-last : (us : List Text) (x : Text) → get_elem? (us ++ x ∷ []) (length us) ≡ some x
get_elem?-last [] x = refl
get_elem?-last (u ∷ us) x = get_elem?-last us x

one_less : (us : List Text) (x : Text) → length (us ++ x ∷ []) - 1 ≡ length us
one_less us x = omega (arith, length-append us (x ∷ []))

word-last : (us : List Text) (x : Text) → word (us ++ x ∷ []) (length (us ++ x ∷ []) - 1) ≡ x
word-last us x = ap (word (us ++ x ∷ [])) (one_less us x) ∙ ap or_empty (get_elem?-last us x)

take-init : (us : List Text) (x : Text) → take (length (us ++ x ∷ []) - 1) (us ++ x ∷ []) ≡ us
take-init us x = ap (λ n. take n (us ++ x ∷ [])) (one_less us x) ∙ take-append_self us (x ∷ [])

pub length-fives : (n : ℕ) → length (fives n) ≡ n
length-fives zero = refl
length-fives (suc n) = omega (arith, length-fives n)

module _ (ask : Text → Option Text) (of : Text → Text × Text) where
  -- What the tracker answers to `give_details`.
  abbrev pub TellsAddress : Text → Type 0
  TellsAddress s =
      (ask (give_details_line s) ≡ some ((of s).0 ++ (codes " " ++ (of s).1)))
      × Lacks 32 (of s).0
      × Lacks 32 (of s).1

  details_of_lem :
      (ss : List Text) (m : Table (Text × Text))
      → All TellsAddress ss
      → (details : Table (Text × Text)) × (details_of ask ss m ≡ some details)
        × ((s : Text) → Named s ss → lookup s details ≡ some (of s))
        × ((s : Text) → lookup s m ≡ some (of s) → lookup s details ≡ some (of s))
  unfolding details_of
  details_of_lem [] m h = (m, refl, (λ s n. absurd n), (λ s e. e))
  details_of_lem (x ∷ ss) m ((told, l, l'), h) =
      let (details, e, named, kept) = details_of_lem ss (insert x (of x) m) h in
      let fields : split ((of x).0 ++ (codes " " ++ (of x).1)) 32 ≡ (of x).0 ∷ (of x).1 ∷ [] =
        split-field (of x).0 (of x).1 l ∙ ap (λ r. (of x).0 ∷ r) (split-Lacks 32 (of x).1 l') in
      (
        details,
        rw (told, fields, details_of) e,
        (λ s n. elim n [
          | inl same ↦ kept s (
              subst (λ y. lookup s (insert y (of y) m) ≡ some (of s)) same
                (lookup-insert_same s (of s) m))
          | inr later ↦ named s later
        ]),
        (λ s f. kept s (lookup-insert_keeps of s x m f)),
      )

-- If the tracker answers with a hash, with a list of seeders and a size below 2^31 as `SendSeeders` writes
-- it, and with an address for each of the seeders, no name or address has a blank in it, and `ServerPath`
-- reads the trackers, then `DownloadFile` goes on with this hash, these seeders in this order, the
-- size and the address of each, and with a new file of the size.
pub download_start-seeders_reply :
    (ask : Text → Option Text) (of : Text → Text × Text)
    (groupname filename filepath username si : Text) (sp : ℤ) (tracker_info : List Text) (h : ℕ)
    (hash : Text) (u : Text) (us : List Text) (size : ℕ) (path : Text)
    → ask (give_sha_line groupname filename username) ≡ some (h ∷ hash)
    → ask (give_seeders_line groupname filename username)
      ≡ some (seeders_reply (to_string size, u ∷ us))
    → All (Lacks 32) (u ∷ us)
    → u ≢ []
    → All (TellsAddress ask of) (u ∷ us)
    → server_path tracker_info ≡ some path
    → size < 2 ^ 31
    → (meta : FileData) × (download_start ask groupname filename filepath username si sp
          tracker_info
        ≡ some (downloading meta (fives size)))
      × (meta.hash ≡ h ∷ hash)
      × (meta.seeders ≡ u ∷ us)
      × (meta.size ≡ to_string size)
      × ((s : Text) → Named s (u ∷ us) → address meta s ≡ of s)
unfolding download_start
download_start-seeders_reply ask of groupname filename filepath username si sp tracker_info h hash
      [] us size path hashed listed plain n told paths fits =
    absurd (n refl)
download_start-seeders_reply ask of groupname filename filepath username si sp tracker_info h hash
      (c ∷ cs) us size path hashed listed plain n told paths fits =
    let seeders = (c ∷ cs) ∷ us in
    let (details, e, named, kept) = details_of_lem ask of seeders [] told in
    let fields = split-each_with seeders (to_string size) plain (number-Lacks size) in
    let meta : FileData = record {
      name = filename;
      path = filepath;
      hash = h ∷ hash;
      size = to_string size;
      groupname = groupname;
      serverpath = path;
      username = username;
      tracker_ip = si;
      tracker_port = sp;
      seeders = seeders;
      details = details;
    } in
    (
      meta,
      rw
          (
            hashed,
            listed,
            fields,
            take-init seeders (to_string size),
            word-last seeders (to_string size),
            e,
            paths,
            atoi-to_string size fits,
          )
          refl,
      refl,
      refl,
      refl,
      (λ s m. ap (λ o. elim o [ none ↦ ([], []) | some a ↦ a ]) (named s m)),
    )
