-- ===== src/Threads/Servers.antt =====
-- The servers: `TrackerServer` of tracker/tracker.cpp and `ClientServer` of peer/peerserver.cpp, with
-- the `Message` that each hands to the thread of a connection. The results of the socket calls come
-- from outside; `exit(-1)` is a trace with no counter.
use torrent_based_file_shari.Common.{
  ◌≡◌, refl, ℕ, ◌-◌, ◌%◌, ◌^◌, Bool, true, false, Option, none, some, List, [], if◌then◌else◌, map,
  get_elem?, Text,
}
use torrent_based_file_shari.Common.Decimal.{ℤ, pos, negsuc, to_string, atoi}
use torrent_based_file_shari.Tracker.Fetch.{bind}
use torrent_based_file_shari.Threads.{Trace, accept_loop, no_threads}
use torrent_based_file_shari.Threads.Traces.{
  Keeps, started, accepted, accept_loop-Keeps, nothing-Keeps,
}

-- What `accept` gives: the descriptor, and the other side's address as `inet_ntoa` and `ntohs` show it.
pub record Client : Type 0 where
  pub descriptor : ℕ
  pub inet_ntoa : Text
  pub ntohs : ℕ

-- `struct Message`
pub record Message : Type 0 where
  pub new_cli : ℕ
  pub client_ip : Text
  pub client_port : Text

abbrev pub message_of : Option Client → Option Message
message_of none = none
message_of (some c) =
    some
      (record { new_cli = c.descriptor; client_ip = c.inet_ntoa; client_port = to_string c.ntohs })

-- The argument of `htons` is cut to 16 bits.
abbrev pub port_bits : ℤ → ℕ
port_bits (pos n) = n % 2 ^ 16
port_bits (negsuc n) = 2 ^ 16 - 1 - n % 2 ^ 16

-- The calls on the listening socket: whether each succeeds. The address is `none` for `INADDR_ANY`.
pub record Network : Type 0 where
  pub socket : Bool
  pub bind_to : Option Text → ℕ → Bool
  pub listen : Bool
  pub accepts : List (Option Client)

abbrev pub exited : {A : Type 0} → Trace A
exited = ([], none)

module _ (net : Network) (pthread_create : Message → Bool) where
  -- The setup of a socket and the loop behind it.
  unfoldable pub serve_at : Option Text → ℕ → Trace Message
  serve_at address port =
      if net.socket
      then if net.bind_to address port
        then if net.listen
          then accept_loop pthread_create 0 (map message_of net.accepts)
          else exited
        else exited
      else exited

  -- `TrackerServer`: undefined (`none`) where the file of the trackers has no line of this number, or
  -- where its port is no `int`.
  unfoldable pub tracker_server : List (Text × Text) → ℕ → Option (Trace Message)
  tracker_server tracker_info mysequence =
      bind (get_elem? tracker_info mysequence)
        λ (ip, port). bind (atoi port) λ z. some (serve_at (some ip) (port_bits z))

  -- `ClientServer`
  unfoldable pub client_server : ℤ → Trace Message
  client_server my_port = serve_at none (port_bits my_port)

  -- The messages that a server hands to threads: none if the socket cannot be set up, else those of the
  -- accepted connections up to the first failure.
  abbrev pub handed : Option Text → ℕ → List Message
  handed address port =
      if net.socket
      then if net.bind_to address port
        then if net.listen
          then started pthread_create (accepted (map message_of net.accepts))
          else []
        else []
      else []

  serve_at-Keeps :
      (address : Option Text) (port : ℕ)
      → Keeps (serve_at address port).0 (handed address port) no_threads
  unfolding serve_at
  serve_at-Keeps address port =
      rules net.socket (net.bind_to address port) net.listen (map message_of net.accepts)
    where
      rules :
          (a b c : Bool) (clients : List (Option Message))
          → Keeps
              (if a
                then if b
                  then if c then accept_loop pthread_create 0 clients else exited
                  else exited
                else exited).0
              (if a
                then if b then if c then started pthread_create (accepted clients) else [] else []
                else [])
              no_threads
      rules true true true clients = accept_loop-Keeps pthread_create clients
      rules true true false clients = nothing-Keeps
      rules true false c clients = nothing-Keeps
      rules false b c clients = nothing-Keeps

  -- If the file of the trackers has a line of this number, with an `int` for a port, then, whatever the
  -- calls on the sockets and `pthread_create` give, the calls of `TrackerServer`, and those of
  -- `ClientServer`, stay within 51 slots, overwrite no thread that was not joined and join none twice:
  -- the joined threads and those that are left, at most 50, are those of the accepted connections
  -- up to the first failure, in their order.
  pub tracker_server-client_server-Keeps :
      (tracker_info : List (Text × Text)) (mysequence : ℕ) (ip port : Text) (z my_port : ℤ)
      → get_elem? tracker_info mysequence ≡ some (ip, port)
      → atoi port ≡ some z
      → ((t : Trace Message) × (tracker_server tracker_info mysequence ≡ some t)
          × Keeps t.0 (handed (some ip) (port_bits z)) no_threads)
        × Keeps (client_server my_port).0 (handed none (port_bits my_port)) no_threads
  unfolding tracker_server client_server
  tracker_server-client_server-Keeps tracker_info mysequence ip port z my_port line number = (
    (
      serve_at (some ip) (port_bits z),
      rw (line, number) refl,
      serve_at-Keeps (some ip) (port_bits z),
    ),
    serve_at-Keeps none (port_bits my_port),
  )
