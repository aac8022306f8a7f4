-- ===== src/Wire/Contexts.antt =====
-- The contexts and connections of common/tls.cpp: `TLSServerContext`, `TLSClientContext`, `TLSAccept`,
-- `TLSConnect`, `TLSClose`. What OpenSSL makes of the files, and whether a handshake succeeds, comes from
-- outside; `none` as a context stands for `exit(-1)`, and as a connection for `NULL`.
use torrent_based_file_shari.Common.{
  ℕ, suc, ◌<◌, ◌≡◌, refl, ap, ◌==◌, not, arith, Bool, true, false, Option, none, some, List, [],
  ◌∷◌, if◌then◌else◌, keep, All, Text,
}
use torrent_based_file_shari.Tracker.Fetch.{bind}

-- What `SSL_CTX_new` and the three calls that load a file give.
pub record OpenSsl : Type 0 where
  pub new_context : Bool
  pub certificate_file : Text → Option Text
  pub private_key_file : Text → Option Text
  pub verify_locations : Text → Option Text

pub record ServerContext : Type 0 where
  pub certificate : Text
  pub private_key : Text

pub record ClientContext : Type 0 where
  pub trusted : Text

module _ (ssl : OpenSsl) where
  unfoldable pub tls_server_context : Text → Text → Option ServerContext
  tls_server_context certfile keyfile =
      if ssl.new_context
      then (bind (ssl.certificate_file certfile) λ c.
          bind (ssl.private_key_file keyfile)
            λ k. some (record { certificate = c; private_key = k }))
      else none

  unfoldable pub tls_client_context : Text → Option ClientContext
  tls_client_context cafile =
      if ssl.new_context
      then (bind (ssl.verify_locations cafile) λ c. some (record { trusted = c }))
      else none

-- The connections that were made by `SSL_new` and not freed, by number.
pub record Connections : Type 0 where
  pub next : ℕ
  pub live : List ℕ

abbrev pub ssl_new : Connections → Connections
ssl_new c = record { next = suc c.next; live = c.next ∷ c.live }

abbrev pub ssl_free : ℕ → Connections → Connections
ssl_free n c = record c { live = keep (λ m. not (m == n)) c.live }

-- `TLSAccept`, by what `SSL_accept` gives, and `TLSConnect`, by what `SSL_connect` gives.
unfoldable pub tls_accept : Bool → Connections → Option ℕ × Connections
tls_accept ssl_accept c =
    if ssl_accept then (some c.next, ssl_new c) else (none, ssl_free c.next (ssl_new c))

unfoldable pub tls_connect : Bool → Connections → Option ℕ × Connections
tls_connect ssl_connect c =
    if ssl_connect then (some c.next, ssl_new c) else (none, ssl_free c.next (ssl_new c))

unfoldable pub tls_close : Option ℕ → Connections → Connections
tls_close none c = c
tls_close (some n) c = ssl_free n c

-- The numbers of the live connections were given out before.
abbrev pub IsFresh : Connections → Type 0
IsFresh c = All (λ n. n < c.next) c.live

free_new : (n : ℕ) (live : List ℕ) → All (λ m. m < n) live → keep (λ m. not (m == n)) live ≡ live
free_new n [] h = refl
free_new n (m ∷ live) (l, ls) =
    let other : (m == n) ≡ false = ground (arith, l) in
    rw other (ap (λ r. m ∷ r) (free_new n live ls))

live_again : (c : Connections) → IsFresh c → (ssl_free c.next (ssl_new c)).live ≡ c.live
live_again c fresh =
    let same : (c.next == c.next) ≡ true = ground arith in rw same (free_new c.next c.live fresh)

-- Whatever a handshake gives, closing its connection leaves the connections that were live before it, so none is
-- lost: where the handshake fails, it is freed already.
pub tls_close-tls_accept :
    (ok : Bool) (c : Connections)
    → IsFresh c
    → ((tls_close (tls_accept ok c).0 (tls_accept ok c).1).live ≡ c.live)
      × ((tls_close (tls_connect ok c).0 (tls_connect ok c).1).live ≡ c.live)
unfolding tls_close tls_accept tls_connect
tls_close-tls_accept true c fresh = (live_again c fresh, live_again c fresh)
tls_close-tls_accept false c fresh = (live_again c fresh, live_again c fresh)
