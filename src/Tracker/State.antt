-- ===== src/Tracker/State.antt =====
-- The tracker's state: the files under `.all_files`, the global tables of tracker/tracker.cpp that
-- `FetchDetails` fills from them, and the files of the sibling tracker that `Sync` writes.
-- A file is the list of its lines. `none` as the result of an action is undefined behaviour of the
-- source: a field read past the end of a split line, a read through a null `FILE*`, or the unlocking of
-- a mutex that is not held. A file that is written is opened here whatever its name: the names for
-- which the source opens it are `is_file_name` of Tracker/Safety/Names.
use torrent_based_file_shari.Common.{
  ⊤, Bool, Option, none, some, List, [], ◌∷◌, ◌++◌, if◌then◌else◌, Text, codes, eq_text, Table,
}

abbrev pub Disk : Type 0
Disk = Text → Option (List Text)

abbrev pub or_nil : Option (List Text) → List Text
or_nil none = []
or_nil (some ls) = ls

-- What `getline` reads through an `ifstream`, also one that could not be opened.
abbrev pub lines : Disk → Text → List Text
lines d p = or_nil (d p)

unfoldable pub write : Text → List Text → Disk → Disk
write p ls d q = if eq_text p q then some ls else d q

unfoldable pub remove : Text → Disk → Disk
remove p d q = if eq_text p q then none else d q

-- `ofstream` with `ios::app`, one line and `endl`.
abbrev pub append_line : Text → Text → Disk → Disk
append_line p l d = write p (lines d p ++ l ∷ []) d

-- The names of the files.
abbrev pub credential_file : Text
credential_file = codes ".all_files/.credential.txt"

abbrev pub online_file : Text
online_file = codes ".all_files/.online.txt"

abbrev pub group_file : Text
group_file = codes ".all_files/.group.txt"

abbrev pub pending_file : Text
pending_file = codes ".all_files/.pending.txt"

abbrev pub temp_file : Text
temp_file = codes ".all_files/.temp.txt"

abbrev pub members_file : Text → Text
members_file group = codes ".all_files/.group_" ++ (group ++ codes ".txt")

abbrev pub shared_file : Text → Text
shared_file group = codes ".all_files/.group_" ++ (group ++ codes "_files.txt")

abbrev pub user_file : Text → Text
user_file user = codes ".all_files/.files_" ++ (user ++ codes ".txt")

abbrev pub downloading_file : Text → Text
downloading_file user = codes ".all_files/.files_" ++ (user ++ codes "_downloading.txt")

abbrev pub downloaded_file : Text → Text
downloaded_file user = codes ".all_files/.files_" ++ (user ++ codes "_downloaded.txt")

-- The globals that `FetchDetails` fills.
pub record Tables : Type 0 where
  pub credentials : Table Text
  pub online : List Text
  pub online_users : Table (Text × Text)
  pub groups : Table Text
  pub pending : List (Text × Text)

-- `sibling` is `none` while the other tracker cannot be reached.
pub record Tracker : Type 0 where
  pub disk : Disk
  pub tables : Tables
  pub group_members : List Text
  pub sibling : Option Disk

abbrev pub M : Type 0 → Type 0
M A = Tracker → Option (A × Tracker)

infixl 5 ◌>>=◌ ◌>>◌
unfoldable pub ◌>>=◌ : {A B : Type 0} → M A → (A → M B) → M B
◌>>=◌ m f s = elim (m s) [ none ↦ none | some (a, s') ↦ f a s' ]

abbrev pub ◌>>◌ : {A B : Type 0} → M A → M B → M B
m >> k = m >>= λ _. k

unfoldable pub pure : {A : Type 0} → A → M A
pure a s = some (a, s)

unfoldable pub get : M Tracker
get s = some (s, s)

unfoldable pub modify : (Tracker → Tracker) → M ⊤
modify f s = some (tt, f s)

-- `if` and `else` in an action, and the two outcomes of a `find`.
infix 1 when◌perform◌otherwise◌
unfoldable pub when◌perform◌otherwise◌ : {A : Type 0} → Bool → M A → M A → M A
when b perform m otherwise n = if b then m else n

unfoldable pub if_found : {A B : Type 0} → Option A → M B → (A → M B) → M B
if_found none m f = m
if_found (some a) m f = f a

-- A read that is undefined behaviour where the value is missing.
unfoldable pub expect : {A : Type 0} → Option A → M A
expect none s = none
expect (some a) s = some (a, s)

unfoldable pub on_disk : (Disk → Disk) → M ⊤
on_disk f s = some (tt, record s { disk = f s.disk })

unfoldable pub on_tables : (Tables → Tables) → M ⊤
on_tables f s = some (tt, record s { tables = f s.tables })

unfoldable pub read_lines : Text → M (List Text)
read_lines p s = some (lines s.disk p, s)

-- `Sync`: the sibling, if it can be reached, writes the file's lines to its own copy. A file that is
-- not there is a null `FILE*`, which `fread` reads. Sync.antt has the exchange itself.
abbrev pub push : Text → Option (List Text) → Option Disk → Option (Option Disk)
push p content none = some none
push p none (some e) = none
push p (some ls) (some e) = some (some (write p ls e))

unfoldable pub sync : Text → M ⊤
sync p s = elim (push p (s.disk p) s.sibling) [
  | none ↦ none
  | some e ↦ some (tt, record s { sibling = e })
]
