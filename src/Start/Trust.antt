-- ===== src/Start/Trust.antt =====
-- Programs that are started on a file of trackers in one directory use the certificate of this directory.
use torrent_based_file_shari.Common.{
  ◌≡◌, refl, ℕ, true, none, some, List, [], ◌∷◌, ◌++◌, Text, codes, ==_refl,
}
use torrent_based_file_shari.Common.Decimal.{ℤ, atoi}
use torrent_based_file_shari.Common.Strings.Split.{Lacks}
use torrent_based_file_shari.Wire.Contexts.{OpenSsl, tls_server_context, tls_client_context}
use torrent_based_file_shari.Start.{
  before_last, certdir, minus_one, tracker_lines, tracker_start, peer_start, TrackerStart,
  PeerStart,
}

before_last-Lacks : (c : ℕ) (t : Text) → Lacks c t → before_last c t ≡ none
unfolding before_last
before_last-Lacks c [] h = refl
before_last-Lacks c (x ∷ t) (e, h) = rw (before_last-Lacks c t h, e) refl

before_last-append :
    (c : ℕ) (dir name : Text) → Lacks c name → before_last c (dir ++ c ∷ name) ≡ some dir
unfolding before_last
before_last-append c [] name h = rw (before_last-Lacks c name h, ==_refl c) refl
before_last-append c (x ∷ dir) name h = rw (before_last-append c dir name h) refl

pub certdir-append :
    (dir name : Text) → Lacks 47 name → certdir (dir ++ 47 ∷ name) ≡ dir ++ codes "/certs"
unfolding certdir
certdir-append dir name h = rw (certdir, before_last-append 47 dir name h) refl

-- If a tracker and a peer are started with files of trackers in one directory, the numbers among their arguments are
-- numbers, and OpenSSL loads the certificate `x` of the directory, also as one to trust, and the key, then
-- both start, and the peer, and the tracker in its calls of the other, trust the certificate that the
-- tracker presents.
pub tracker_start-peer_start :
    (ssl : OpenSsl) (dir name name2 mysequence myip myport x k : Text) (z w : ℤ) (ls : List Text)
    → Lacks 47 name
    → Lacks 47 name2
    → atoi mysequence ≡ some z
    → atoi myport ≡ some w
    → ssl.new_context ≡ true
    → ssl.certificate_file ((dir ++ codes "/certs") ++ codes "/tracker.crt") ≡ some x
    → ssl.private_key_file ((dir ++ codes "/certs") ++ codes "/tracker.key") ≡ some k
    → ssl.verify_locations ((dir ++ codes "/certs") ++ codes "/tracker.crt") ≡ some x
    → (t : TrackerStart) × (p : PeerStart) × (tracker_start ssl (dir ++ 47 ∷ name) mysequence ls
        ≡ some t)
      × (peer_start ssl myip myport (dir ++ 47 ∷ name2) ≡ some p)
      × (p.tracker_ctx.trusted ≡ t.server_ctx.certificate)
      × (t.client_ctx.trusted ≡ t.server_ctx.certificate)
unfolding tracker_start peer_start tls_server_context tls_client_context
tracker_start-peer_start ssl dir name name2 mysequence myip myport x k z w ls n n2 ez ew new cert
      key trust =
    (
      record {
        mysequence_i = minus_one z;
        tracker_info = tracker_lines ([], []) ls;
        server_ctx = record { certificate = x; private_key = k };
        client_ctx = record { trusted = x };
      },
      record { myip = myip; myport_i = w; tracker_ctx = record { trusted = x } },
      rw (ez, certdir-append dir name n, new, cert, key, trust) refl,
      rw (ew, certdir-append dir name2 n2, new, trust) refl,
      refl,
      refl,
    )
