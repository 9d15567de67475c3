-- ===== src/Prepare/Shown.antt =====
-- The RSD group that `prepareDevices` of cmd/npu-kubelet-plugin/state.go creates, as rbln-smi shows
-- it.
use rbln_k8s_dra_driver.Base.{
  ℕ, suc, ◌≡◌, ◌≢◌, ◌⊎◌, refl, sym, ap, ◌∙◌, ◌||◌, List, [], ◌∷◌, ◌++◌, Result, ok, some, arith,
  subst, inl, inr, Result-cases, >>=-eq-ok, Option-cases,
}
use rbln_k8s_dra_driver.Go.Text.{Text, codes, text_eq, contains}
use rbln_k8s_dra_driver.Go.Strings.{to_lower}
use rbln_k8s_dra_driver.Go.Number.{format_nat}
use rbln_k8s_dra_driver.Go.FilePath.{FilePath}
use rbln_k8s_dra_driver.Go.Errors.{Error}
use rbln_k8s_dra_driver.Claim.{DeviceNode}
use rbln_k8s_dra_driver.Host.{Host}
use rbln_k8s_dra_driver.Cdi.{create_common_spec_file}
use rbln_k8s_dra_driver.Rsd.{
  GroupEntry, lowered, validate_rsd_membership, recreate_validated_rsd_group,
}
use rbln_k8s_dra_driver.Rsd.Inventory.{read_grouped_inventory}
use rbln_k8s_dra_driver.Rsd.Sets.{Nodup}
use rbln_k8s_dra_driver.Rsd.Laws.{members, validate_rsd_membership_lem}
use rbln_k8s_dra_driver.Rsd.Groups.{GroupLibrary, to_path, to_paths, rsd_group_fn, Uses}
use rbln_k8s_dra_driver.Prepare.Devices.{
  Plugin, insert_sorted, sort, checked_rsd_path, set_up_group,
}

-- Sorting keeps the members.
contains-insert_sorted :
    (x b : Text) (ys : List Text)
    → contains (lowered (insert_sorted x ys)) b
      ≡ (text_eq (to_lower x) b || contains (lowered ys) b)
unfolding insert_sorted lowered contains
contains-insert_sorted x b [] = refl
contains-insert_sorted x b (y ∷ ys) = ground (arith, contains-insert_sorted x b ys)

contains-sort :
    (xs : List Text) (b : Text) → contains (lowered (sort xs)) b ≡ contains (lowered xs) b
unfolding sort lowered contains
contains-sort [] b = refl
contains-sort (x ∷ xs) b = ground (arith, contains-insert_sorted x b (sort xs), contains-sort xs b)

insert_sorted-nonempty : (x : Text) (ys : List Text) → insert_sorted x ys ≢ []
unfolding insert_sorted
insert_sorted-nonempty x [] e = cc
insert_sorted-nonempty x (y ∷ ys) e = ground arith

recreate_validated_rsd_group-ok :
    (bus_ids : List Text) (created : Result Error Text) (read : Result Error (List GroupEntry))
    (path : Text)
    → recreate_validated_rsd_group bus_ids created read ≡ ok path
    → (inventory : List GroupEntry) × (read ≡ ok inventory)
      × (validate_rsd_membership path bus_ids inventory ≡ ok tt)
unfolding recreate_validated_rsd_group
recreate_validated_rsd_group-ok bus_ids created read path h =
    let (made, c, h1) = >>=-eq-ok created _ h in
    let (inventory, r, h2) = >>=-eq-ok read _ h1 in
    let (u, v, h3) = >>=-eq-ok (validate_rsd_membership made bus_ids inventory) _ h2 in
    (inventory, r, ground arith)

pub sort-empty : (xs : List Text) → sort xs ≡ [] → xs ≡ []
unfolding sort insert_sorted
sort-empty [] e = refl
sort-empty (x ∷ xs) e = absurd (insert_sorted-nonempty x (sort xs) e)

-- What is known of the group behind a path after it was created for these functions.
pub record GroupOf (bus_ids : List Text) (path : FilePath) (inventory : List GroupEntry)
    : Type 0 where
  pub number : ℕ
  pub named : to_path (codes "/dev/rsd" ++ format_nat (suc number)) ≡ some path
  pub has :
      (bus : Text)
      → contains (members (format_nat (suc number)) inventory) bus ≡ contains (lowered bus_ids) bus
  pub nodup : Nodup (members (format_nat (suc number)) inventory)

-- In this state rbln-smi lists the group.
abbrev pub Shown : (h : Host) → GroupLibrary h.State → h.State → List Text → FilePath → Type 0
Shown h lib s bus_ids path =
    (inventory : List GroupEntry) × (read_grouped_inventory (lib.commands s) ≡ ok inventory)
    × GroupOf bus_ids path inventory

module _ (h : Host) (lib : GroupLibrary h.State) (w : Uses h lib) where
  rsd_group-Shown :
      (bus_ids : List Text) (s : h.State) (path : FilePath)
      → (h.rsd_group bus_ids s).0 ≡ ok (some path)
      → Shown h lib (h.rsd_group bus_ids s).1 bus_ids path
  unfolding rsd_group_fn to_paths
  rsd_group-Shown bus_ids s path e =
      let s' = (lib.recreate_rsd_group bus_ids s).1 in
      let read = read_grouped_inventory (lib.commands s') in
      let created = (lib.recreate_rsd_group bus_ids s).0 in
      let (text, a, e1) =
        >>=-eq-ok (recreate_validated_rsd_group bus_ids created read) _
          (ap (λ x. x.0) (sym (w bus_ids s)) ∙ e) in
      let (inventory, r, v) = recreate_validated_rsd_group-ok bus_ids created read text a in
      let (n, spelled, has, nodup, some_id) =
        validate_rsd_membership_lem text bus_ids inventory v in
      (
        inventory,
        ap (λ x. read_grouped_inventory (lib.commands x.1)) (w bus_ids s) ∙ r,
        record { number = n; named = rw (← spelled) (ground arith); has = has; nodup = nodup },
      )

  set_up_group-Shown :
      (p : Plugin) (x : Text) (bus_ids : List Text) (s : h.State) (path : FilePath)
      (nodes : List DeviceNode)
      → (set_up_group h p (x ∷ bus_ids) s).0 ≡ ok (path, nodes)
      → Shown h lib (set_up_group h p (x ∷ bus_ids) s).1 (x ∷ bus_ids) path
  unfolding set_up_group checked_rsd_path
  set_up_group-Shown p x bus_ids s path nodes e =
      elim (Result-cases (create_common_spec_file h p.cdi s).0) [
        | inr (y, c) ↦ absurd (ground arith)
        | inl (u, c) ↦
            let s' = (create_common_spec_file h p.cdi s).1 in
            elim (Result-cases (h.rsd_group (x ∷ bus_ids) s').0) [
              | inr (y, g) ↦ absurd (ground arith)
              | inl (created, g) ↦ elim (Option-cases created) [
                | inl n ↦ absurd (ground arith)
                | inr (made, m) ↦
                    subst (λ t. Shown h lib t (x ∷ bus_ids) path) (ground arith)
                      (rsd_group-Shown (x ∷ bus_ids) s' path (ground arith))
              ]
            ]
      ]

  pub set_up_group-cases :
      (p : Plugin) (bus_ids : List Text) (s : h.State) (path : FilePath) (nodes : List DeviceNode)
      → (set_up_group h p bus_ids s).0 ≡ ok (path, nodes)
      → (bus_ids ≡ []) ⊎ Shown h lib (set_up_group h p bus_ids s).1 bus_ids path
  set_up_group-cases p [] s path nodes e = inl refl
  set_up_group-cases p (x ∷ bus_ids) s path nodes e =
      inr (set_up_group-Shown p x bus_ids s path nodes e)

  pub Shown-sort :
      (s : h.State) (bus_ids : List Text) (path : FilePath)
      → Shown h lib s (sort bus_ids) path
      → Shown h lib s bus_ids path
  Shown-sort s bus_ids path (inventory, r, g) = (
    inventory,
    r,
    record {
      number = g.number;
      named = g.named;
      has = λ bus. g.has bus ∙ contains-sort bus_ids bus;
      nodup = g.nodup;
    },
  )
