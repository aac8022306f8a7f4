-- ===== src/Start.antt =====
-- The start of the two programs: `main` of tracker/tracker.cpp, with its console, and of peer/peer.cpp up to its
-- loop. Arguments and files come from outside; `none` stands for `exit(-1)`, or for a number that is no
-- `int`.
pub mod Console
pub mod Trust
use torrent_based_file_shari.Common.{
  ℕ, zero, suc, ◌==◌, Bool, true, false, Option, none, some, List, [], ◌∷◌, ◌++◌, if◌then◌else◌,
  Text, codes, words,
}
use torrent_based_file_shari.Common.Decimal.{ℤ, pos, negsuc, atoi}
use torrent_based_file_shari.Tracker.Fetch.{read_two, bind}
use torrent_based_file_shari.Wire.Contexts.{
  OpenSsl, ServerContext, ClientContext, tls_server_context, tls_client_context,
}

-- What is before the last occurrence of a character (`find_last_of`, `substr`).
unfoldable pub before_last : ℕ → Text → Option Text
before_last c [] = none
before_last c (x ∷ xs) = elim (before_last c xs) [
  | some t ↦ some (x ∷ t)
  | none ↦ if x == c then some [] else none
]

-- The directory of the certificates: `certs` beside the file of the trackers.
unfoldable pub certdir : Text → Text
certdir filepath = elim (before_last 47 filepath) [
  | none ↦ codes "certs"
  | some d ↦ d ++ codes "/certs"
]

-- The loop over the lines of the file of the trackers: `temp_ip` and `temp_port` keep their values where a line
-- has no such word.
unfoldable pub tracker_lines : Text × Text → List Text → List (Text × Text)
tracker_lines kept [] = []
tracker_lines kept (l ∷ ls) = let now = read_two (words l) kept in now ∷ tracker_lines now ls

-- `atoi(…)-1`
abbrev pub minus_one : ℤ → ℤ
minus_one (pos zero) = negsuc zero
minus_one (pos (suc n)) = pos n
minus_one (negsuc n) = negsuc (suc n)

-- What `main` of the tracker sets up from its arguments.
pub record TrackerStart : Type 0 where
  pub mysequence_i : ℤ
  pub tracker_info : List (Text × Text)
  pub server_ctx : ServerContext
  pub client_ctx : ClientContext

unfoldable pub tracker_start :
    OpenSsl → (filepath mysequence : Text) → List Text → Option TrackerStart
tracker_start ssl filepath mysequence ls = bind (atoi mysequence) λ z.
    bind
      (tls_server_context ssl (certdir filepath ++ codes "/tracker.crt")
        (certdir filepath ++ codes "/tracker.key"))
      λ server. bind (tls_client_context ssl (certdir filepath ++ codes "/tracker.crt")) λ client.
        some (record {
          mysequence_i = minus_one z;
          tracker_info = tracker_lines ([], []) ls;
          server_ctx = server;
          client_ctx = client;
        })

-- What `main` of the peer sets up.
pub record PeerStart : Type 0 where
  pub myip : Text
  pub myport_i : ℤ
  pub tracker_ctx : ClientContext

unfoldable pub peer_start : OpenSsl → (myip myport filepath : Text) → Option PeerStart
peer_start ssl myip myport filepath = bind (atoi myport) λ z.
    bind (tls_client_context ssl (certdir filepath ++ codes "/tracker.crt"))
      λ ctx. some (record { myip = myip; myport_i = z; tracker_ctx = ctx })
