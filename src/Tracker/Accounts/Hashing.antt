-- ===== src/Tracker/Accounts/Hashing.antt =====
-- `GenerateSalt` and `HashPassword` of tracker/tracker.cpp: the hexadecimal text of some bytes, and
-- the digest of a salted password.
use torrent_based_file_shari.Common.{
  ℕ, ◌+◌, ◌-◌, ◌/◌, ◌%◌, List, [], ◌∷◌, ◌++◌, if◌then◌else◌, ltb, Text,
}

abbrev pub colon : ℕ
colon = b':'

abbrev pub hex_digit : ℕ → ℕ
hex_digit n = if ltb n 10 then b'0' + n else b'a' + (n - 10)

-- `sprintf(hex+i*2, "%02x", byte)` for each byte.
unfoldable pub hex : List ℕ → Text
hex [] = []
hex (b ∷ bs) = hex_digit (b / 16) ∷ hex_digit (b % 16) ∷ hex bs

unfoldable pub generate_salt : List ℕ → Text
unfolding hex
generate_salt random = hex random

unfoldable pub hash_password : (Text → List ℕ) → Text → Text → Text
unfolding hex
hash_password sha256 salt password = hex (sha256 (salt ++ password))
