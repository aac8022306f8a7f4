-- ===== src/Tracker/Accounts/Stored.antt =====
-- The stored text of a password, `salt:hash`: how it is written and how it is taken apart.
use torrent_based_file_shari.Common.{
  ℕ, ◌/◌, ◌%◌, ◌≡◌, ◌≢◌, refl, ap, ◌∙◌, false, some, List, [], ◌∷◌, ◌++◌, arith, ◌==◌, All-append,
  Text, codes, is_space, insert, Table, words,
}
use torrent_based_file_shari.Common.Strings.Split.{Lacks}
use torrent_based_file_shari.Common.Strings.Words.{NoSpace, IsWord, words-one, words-more}
use torrent_based_file_shari.Tracker.State.{Disk, lines, Tables, credential_file}
use torrent_based_file_shari.Tracker.Fetch.{read_two, load_credentials, load}
use torrent_based_file_shari.Tracker.Accounts.{
  before_colon, after_colon?, salt_part, hash_part, credential_line,
}
use torrent_based_file_shari.Tracker.Accounts.Hashing.{
  colon, hex_digit, hex, generate_salt, hash_password,
}

-- A hexadecimal digit is neither white space nor a colon.
hex_digit_plain : (n : ℕ) → (is_space (hex_digit n) ≡ false) × ((hex_digit n == colon) ≡ false)
hex_digit_plain n = ground arith

hex-NoSpace : (bs : List ℕ) → NoSpace (hex bs)
unfolding hex
hex-NoSpace [] = tt
hex-NoSpace (b ∷ bs) =
    ((hex_digit_plain (b / 16)).0, ((hex_digit_plain (b % 16)).0, hex-NoSpace bs))

hex-Lacks : (bs : List ℕ) → Lacks colon (hex bs)
unfolding hex
hex-Lacks [] = tt
hex-Lacks (b ∷ bs) = ((hex_digit_plain (b / 16)).1, ((hex_digit_plain (b % 16)).1, hex-Lacks bs))

abbrev pub stored_text : Text → Text → Text
stored_text salt hash = salt ++ (codes ":" ++ hash)

before_colon_lem :
    (salt hash : Text) → Lacks colon salt → before_colon (stored_text salt hash) ≡ salt
unfolding before_colon
before_colon_lem [] hash h = refl
before_colon_lem (c ∷ salt) hash h =
    rw (h.0, before_colon) (ap (λ t. c ∷ t) (before_colon_lem salt hash h.1))

after_colon?_lem :
    (salt hash : Text) → Lacks colon salt → after_colon? (stored_text salt hash) ≡ some hash
unfolding after_colon?
after_colon?_lem [] hash h = refl
after_colon?_lem (c ∷ salt) hash h = rw (h.0, after_colon?) (after_colon?_lem salt hash h.1)

-- The parts of a stored text are the salt and the hash.
pub stored_parts :
    (random : List ℕ) (hash : Text)
    → (salt_part (stored_text (generate_salt random) hash) ≡ generate_salt random)
      × (hash_part (stored_text (generate_salt random) hash) ≡ hash)
unfolding generate_salt
stored_parts random hash = (
  before_colon_lem (hex random) hash (hex-Lacks random),
  rw (after_colon?_lem (hex random) hash (hex-Lacks random), hash_part) refl,
)

stored_text-IsWord :
    (sha256 : Text → List ℕ) (random : List ℕ) (password : Text)
    → IsWord
        (stored_text (generate_salt random) (hash_password sha256 (generate_salt random) password))
unfolding generate_salt hash_password
stored_text-IsWord sha256 random password =
    (not_nil (hex random) _, All-append _ (hex random) _ (hex-NoSpace random) (refl, hex-NoSpace _))
  where
    not_nil : (t rest : Text) → t ++ (colon ∷ rest) ≢ []
    not_nil [] rest e = cc
    not_nil (c ∷ t) rest e = cc

load_credentials-append :
    (kept : Text × Text) (t : Table Text) (ls : List Text) (l : Text)
    → (load_credentials kept t (ls ++ l ∷ [])).1
      ≡ (let (k, u) = load_credentials kept t ls in (load_credentials k u (l ∷ [])).1)
unfolding load_credentials
load_credentials-append kept t [] l = refl
load_credentials-append kept t (m ∷ ls) l = load_credentials-append (read_two (words m) kept) _ ls l

-- The table that `FetchDetails` makes of `.credential.txt`.
abbrev pub credentials_of : List Text → Table Text
credentials_of ls = (load_credentials ([], []) [] ls).1

pub load-credentials :
    (d : Disk) (t : Tables)
    → load d ≡ some t
    → t.credentials ≡ credentials_of (lines d credential_file)
unfolding load
load-credentials d t e = ground arith

-- A sign-up adds an entry to that table.
pub credentials_of-append :
    (sha256 : Text → List ℕ) (random : List ℕ) (user password : Text) (ls : List Text)
    → IsWord user
    → credentials_of (ls ++ credential_line sha256 user (generate_salt random) password ∷ [])
      ≡ insert user
          (stored_text
            (generate_salt random)
            (hash_password sha256 (generate_salt random) password))
          (credentials_of ls)
unfolding load_credentials
credentials_of-append sha256 random user password ls w =
    load_credentials-append ([], []) [] ls _
    ∙ one_line (load_credentials ([], []) [] ls).0 (credentials_of ls)
  where
    stored : Text
    stored =
        stored_text (generate_salt random) (hash_password sha256 (generate_salt random) password)

    two_words : words (user ++ 32 ∷ stored) ≡ user ∷ stored ∷ []
    two_words =
        words-more user stored w
        ∙ ap (λ ws. user ∷ ws) (words-one stored (stored_text-IsWord sha256 random password))

    one_line :
        (kept : Text × Text) (t : Table Text)
        → (load_credentials kept t ((user ++ 32 ∷ stored) ∷ [])).1 ≡ insert user stored t
    one_line kept t = rw two_words refl
