-- ===== src/Rsd/Laws.antt =====
-- What an RSD group that passes the test of cmd/npu-kubelet-plugin/rsd_group.go consists of.
use rbln_k8s_dra_driver.Base.{
  ℕ, zero, suc, ◌≤◌, length, ◌≡◌, ◌≢◌, refl, ap, ◌∙◌, true, false, ◌||◌, List, [], ◌∷◌, ◌++◌, ok, ℤ,
  pos, negsuc, Option, none, some, if◌then◌else◌, arith, inl, inr, Bool-cases, Result-cases,
  Option-cases,
}
use rbln_k8s_dra_driver.Go.Text.{
  Text, codes, text_eq, text_eq_iff, text_eq_refl, text_eq_sound, contains,
}
use rbln_k8s_dra_driver.Go.Strings.{to_lower, cut_prefix, cut_prefix_sound}
use rbln_k8s_dra_driver.Go.Number.{parse_int, format_int, format_nat}
use rbln_k8s_dra_driver.Rsd.{
  GroupEntry, is_group_number, checked_group_id, lowered, seen_after, check_members,
  validate_rsd_membership,
}
use rbln_k8s_dra_driver.Rsd.Sets.{
  to_set, Nodup, to_set-Nodup, contains-to_set, Within, Within-converse,
}

-- The addresses of the devices that rbln-smi lists in the group, in lower case.
abbrev pub members : Text → List GroupEntry → List Text
members group [] = []
members group (d ∷ devices) =
    let rest = members group devices in
    if text_eq d.group_id group then to_lower d.bus_id ∷ rest else rest

-- What the loop has established of the keys `final` at its end.
record Collected (group : Text) (wanted seen : List Text) (devices : List GroupEntry)
    (final : List Text) : Type 0 where
  nodup : Nodup final
  within : Within final wanted
  has : (b : Text) → contains final b ≡ (contains seen b || contains (members group devices) b)
  apart : (b : Text) → contains seen b ≡ true → contains (members group devices) b ≡ false
  members_nodup : Nodup (members group devices)

seen_after-Collected :
    (group : Text) (wanted seen : List Text) (devices : List GroupEntry) (final : List Text)
    → Nodup seen
    → Within seen wanted
    → seen_after group wanted seen devices ≡ ok final
    → Collected group wanted seen devices final
unfolding seen_after contains
seen_after-Collected group wanted seen [] final n w h =
    let same : seen ≡ final = ground arith in
    rw (← same) (record {
      nodup = n;
      within = w;
      has = λ b. ground arith;
      apart = λ b m. refl;
      members_nodup = tt;
    })
seen_after-Collected group wanted seen (d ∷ devices) final n w h =
    elim (Bool-cases (text_eq d.group_id group)) [
      | inl ours ↦
          let bus = to_lower d.bus_id in
          let fresh : contains seen bus ≡ false = ground arith in
          let asked : contains wanted bus ≡ true = ground arith in
          let more =
            seen_after-Collected group wanted (bus ∷ seen) devices final (fresh, n)
              (λ b m. ground (arith, w b, text_eq_iff bus b)) (ground arith) in
          record {
            nodup = more.nodup;
            within = more.within;
            has = λ b. ground (arith, more.has b);
            apart = λ b m. ground (arith, more.apart b, text_eq_iff bus b);
            members_nodup =
                rw ours (more.apart bus (ground (arith, text_eq_refl bus)), more.members_nodup);
          }
      | inr theirs ↦
          let more = seen_after-Collected group wanted seen devices final n w (ground arith) in
          record {
            nodup = more.nodup;
            within = more.within;
            has = λ b. ground (arith, more.has b);
            apart = λ b m. ground (arith, more.apart b);
            members_nodup = rw theirs (more.members_nodup);
          }
    ]

is_group_number_lem :
    (group : Text) (id : Option ℤ)
    → is_group_number group id ≡ true
    → (n : ℕ) × (group ≡ format_nat (suc n))
unfolding is_group_number format_int
is_group_number_lem group none h = absurd (cc)
is_group_number_lem group (some (pos zero)) h = absurd (ground arith)
is_group_number_lem group (some (pos (suc n))) h = (n, text_eq_sound group _ (ground arith))
is_group_number_lem group (some (negsuc n)) h = absurd (ground arith)

check_members_lem :
    (group : Text) (wanted : List Text) (devices : List GroupEntry)
    → Nodup wanted
    → check_members group wanted devices ≡ ok tt
    → (wanted ≢ [])
      × Nodup (members group devices)
      × ((b : Text) → contains (members group devices) b ≡ contains wanted b)
unfolding check_members contains
check_members_lem group wanted devices n h =
    elim (Result-cases (seen_after group wanted [] devices)) [
      | inr (e, r) ↦ absurd (ground arith)
      | inl (final, r) ↦
          let found =
            seen_after-Collected group wanted [] devices final tt (λ b m. absurd (cc)) r in
          let size : length wanted ≤ length final = ground arith in
          let back = Within-converse final wanted (found.nodup) (found.within) size in
          (
            λ empty. ground arith,
            found.members_nodup,
            λ b. ground (arith, found.has b, found.within b, back b),
          )
    ]

-- A group that passes the test is the one of a positive number, written without leading zeros,
-- behind `/dev/rsd`. Up to case, the functions that rbln-smi lists in it are exactly the requested
-- ones, none of them is listed twice, and at least one was requested.
pub validate_rsd_membership_lem :
    (path : Text) (expected : List Text) (devices : List GroupEntry)
    → validate_rsd_membership path expected devices ≡ ok tt
    → (n : ℕ) × (path ≡ codes "/dev/rsd" ++ format_nat (suc n))
      × ((bus : Text)
          → contains (members (format_nat (suc n)) devices) bus ≡ contains (lowered expected) bus)
      × Nodup (members (format_nat (suc n)) devices)
      × (expected ≢ [])
unfolding validate_rsd_membership checked_group_id lowered to_set
validate_rsd_membership_lem path expected devices h =
    elim (Option-cases (cut_prefix path (codes "/dev/rsd"))) [
      | inl r ↦ absurd (ground arith)
      | inr (group, r) ↦
          let (n, number) = is_group_number_lem group (parse_int group) (ground arith) in
          let (some_wanted, nodup, same) =
            check_members_lem group (to_set (lowered expected)) devices
              (to_set-Nodup (lowered expected)) (ground arith) in
          (
            n,
            cut_prefix_sound path (codes "/dev/rsd") group r
                ∙ ap (λ (g : Text). codes "/dev/rsd" ++ g) number,
            λ bus. rw (← number) (same bus ∙ contains-to_set (lowered expected) bus),
            rw (← number) nodup,
            λ empty. some_wanted (rw empty refl),
          )
    ]
