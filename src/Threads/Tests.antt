-- ===== src/Threads/Tests.antt =====
-- Runs of the loops that create threads, and the theorems about them at concrete inputs.
use torrent_based_file_shari.Common.{◌≡◌, refl, ℕ, true, none, some, List, [], ◌∷◌, Text, codes}
use torrent_based_file_shari.Common.Decimal.{pos, atoi}
use torrent_based_file_shari.Threads.{
  create, join_slot, join_from, advance, spawn, Trace, spawn_all, no_threads,
}
use torrent_based_file_shari.Threads.Traces.{Keeps}
use torrent_based_file_shari.Threads.Servers.{
  Message, Network, tracker_server, client_server, handed, port_bits,
  tracker_server-client_server-Keeps,
}

-- Two threads are created and joined.
two_jobs :
    spawn_all (λ (n : ℕ). true) (7 ∷ 8 ∷ [])
    ≡ (create 0 7 ∷ create 1 8 ∷ join_slot 0 ∷ join_slot 1 ∷ [], some 2)
unfolding spawn_all spawn advance join_from
two_jobs = refl

-- A network with one client, and a failure of `accept` behind it.
abbrev one_client : Network
one_client = record {
  socket = true;
  bind_to = λ address port. true;
  listen = true;
  accepts =
      some (record { descriptor = 4; inet_ntoa = codes "10.0.0.2"; ntohs = 5000 }) ∷ none ∷ [];
}

abbrev trackers : List (Text × Text)
trackers = (codes "h", codes "10") ∷ (codes "h", codes "11") ∷ []

tracker_server-client_server-Keeps_example :
    ((t : Trace Message) × (tracker_server one_client (λ m. true) trackers 1 ≡ some t)
      × Keeps t.0
          (handed one_client (λ m. true) (some (codes "h")) (port_bits (pos 11)))
          no_threads)
    × Keeps
        (client_server one_client (λ m. true) (pos 9000)).0
        (handed one_client (λ m. true) none (port_bits (pos 9000)))
        no_threads
unfolding atoi
tracker_server-client_server-Keeps_example =
    tracker_server-client_server-Keeps one_client (λ m. true) trackers 1 (codes "h") (codes "11")
      (pos 11) (pos 9000) refl refl
