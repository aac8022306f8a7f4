-- ===== src/Tracker/Sharing/Seeders.antt =====
-- Whom `SendSeeders` names.
use torrent_based_file_shari.Common.{
  ◌≡◌, refl, ap, ◌∙◌, inl, inr, Bool, false, ◌&&◌, ◌||◌, some, List, [], ◌∷◌, arith, any,
  if◌then◌else◌, Text, eq_text, eq_of_eq_text, lt_text, Bool-cases, mem_text, set_insert,
}
use torrent_based_file_shari.Common.Sets.{mem_text-set_insert}
use torrent_based_file_shari.Tracker.State.{lines, shared_file, Tracker}
use torrent_based_file_shari.Tracker.Files.Deletion.{field_or_empty}
use torrent_based_file_shari.Tracker.Sharing.{seeders_of, seeders_reply, send_seeders}
use torrent_based_file_shari.Tracker.Safety.Rules.{
  Runs, Runs-bind, Runs-get, Runs-pure, Runs-expect, Runs-read_lines,
}
use torrent_based_file_shari.Tracker.Safety.Disk.{HaveFields}
use torrent_based_file_shari.Tracker.Safety.Lines.{Has-field}
use torrent_based_file_shari.Tracker.Safety.Fetching.{IsGood, fetch_details-Good}

-- A line of the list names this file and this user.
abbrev pub shared_by : Text → Text → Text → Bool
shared_by name user l =
    if eq_text (field_or_empty 3 l) name then eq_text user (field_or_empty 2 l) else false

if_online :
    (u c : Text) (online ys : List Text)
    → mem_text u (if mem_text c online then set_insert lt_text c ys else ys)
      ≡ (mem_text u ys || (mem_text u online && eq_text u c))
if_online u c online ys = elim (Bool-cases (eq_text u c)) [
  | inl same ↦
      let e = eq_of_eq_text u c same in
      rw e (elim (Bool-cases (mem_text c online)) [
        | inl on ↦ ground (arith, on, mem_text-set_insert c c ys, rw e at same)
        | inr off ↦ ground (arith, off)
      ])
  | inr other ↦ elim (Bool-cases (mem_text c online)) [
    | inl on ↦ ground (arith, on, other, mem_text-set_insert u c ys)
    | inr off ↦ ground (arith, off, other)
  ]
]

seeders_of_lem :
    (name : Text) (online : List Text) (acc : Text × List Text) (ls : List Text)
    → HaveFields 4 ls
    → (r : Text × List Text) × (seeders_of name online acc ls ≡ some r)
      × ((u : Text)
          → mem_text u r.1 ≡ (mem_text u acc.1 || (mem_text u online && any (shared_by name u) ls)))
unfolding seeders_of
seeders_of_lem name online acc [] h = (acc, refl, (λ u. ground arith))
seeders_of_lem name online acc (l ∷ ls) (h, hs) =
    let (a, ea) = Has-field 4 3 l h (omega arith) in
    let (b, eb) = Has-field 4 1 l h (omega arith) in
    let (c, ec) = Has-field 4 2 l h (omega arith) in
    elim (Bool-cases (eq_text a name)) [
      | inl q ↦
          let (r, er, k) =
            seeders_of_lem name online
              (b, if mem_text c online then set_insert lt_text c acc.1 else acc.1) ls hs in
          (
            r,
            ground arith,
            (λ u.
                rw (ea, ec, q)
                  (k u
                    ∙ ap (λ x. x || (mem_text u online && any (shared_by name u) ls))
                        (if_online u c online acc.1)
                    ∙ ground arith)),
          )
      | inr q ↦
          let (r, er, k) = seeders_of_lem name online acc ls hs in
          (r, ground arith, (λ u. rw (ea, ec, q) (k u)))
    ]

-- `SendSeeders` ends, and the seeders of its reply are exactly the users who are online and have a line
-- with the file in the group's list.
pub send_seeders-shared_by :
    (group name : Text) (s : Tracker)
    → IsGood s.disk
    → Runs (send_seeders group name) s (λ r s'.
      (found : Text × List Text) × (r ≡ seeders_reply found)
      × ((u : Text)
          → mem_text u found.1 ≡ (
              mem_text u s'.tables.online
              && any (shared_by name u) (lines s'.disk (shared_file group)))))
unfolding send_seeders mem_text
send_seeders-shared_by group name s h = Runs-bind _ _ (fetch_details-Good s h.safe) λ _ s' h'.
    let (found, e, k) =
      seeders_of_lem name s'.tables.online ([], []) (lines s'.disk (shared_file group))
        (h'.safe.shared group) in
    Runs-get _ (Runs-read_lines _ _ (Runs-expect _ found e (Runs-pure _ (found, refl, k))))
