-- ===== src/Wire/Tests.antt =====
-- Messages over a connection that takes and gives one byte at a time.
use torrent_based_file_shari.Common.{
  ℕ, ◌^◌, ◌<◌, ◌≤◌, ◌≡◌, ◌≢◌, refl, true, Option, none, some, [], ◌∷◌, ◌++◌, arith, if◌then◌else◌,
  ltb, length, take, Text, codes,
}
use torrent_based_file_shari.Wire.{max_msg_size, tls_send_msg, tls_recv_msg}
use torrent_based_file_shari.Wire.Loops.{IsReliable}
use torrent_based_file_shari.Wire.Framing.{tls_recv_msg-tls_send_msg}

-- The state is the bytes that are underway.
abbrev slow_write : Text → Text → Option ℕ × Text
slow_write [] s = (none, s)
slow_write (c ∷ cs) s = (some 1, s ++ c ∷ [])

abbrev slow_read : ℕ → Text → Option Text × Text
slow_read n [] = (none, [])
slow_read n (c ∷ s) = (some (c ∷ []), s)

slow-IsReliable : IsReliable slow_write slow_read (λ s. s)
slow-IsReliable = record { writes = writes; reads = reads }
  where
    writes :
        (t : Text) (s : Text)
        → t ≢ []
        → length t < 2 ^ 31
        → (k : ℕ) × (s' : Text) × (slow_write t s ≡ (some k, s')) × (1 ≤ k) × (s' ≡ s ++ take k t)
    writes [] s h fits = absurd (h refl)
    writes (c ∷ cs) s h fits = (1, s ++ c ∷ [], refl, omega arith, refl)

    reads :
        (n : ℕ) (s : Text)
        → 1 ≤ n
        → n < 2 ^ 31
        → s ≢ []
        → (t : Text) × (s' : Text) × (slow_read n s ≡ (some t, s'))
          × (1 ≤ length t)
          × (length t ≤ n)
          × (s ≡ t ++ s')
    reads n [] p fits h = absurd (h refl)
    reads n (c ∷ s) p fits h = (c ∷ [], s, refl, omega arith, p, refl)

tls_recv_msg-tls_send_msg_example :
    (s1 : Text) × (s2 : Text) × (tls_send_msg slow_write slow_read (codes "list_groups") []
      ≡ (true, s1))
    × (tls_recv_msg slow_write slow_read s1 ≡ (
      (if ltb max_msg_size (length (codes "list_groups")) then [] else codes "list_groups"),
      s2,
    ))
    × (s2 ≡ (if ltb max_msg_size (length (codes "list_groups")) then codes "list_groups" else []))
tls_recv_msg-tls_send_msg_example =
    tls_recv_msg-tls_send_msg slow_write slow_read (λ s. s) slow-IsReliable (codes "list_groups") []
      refl (omega arith)
