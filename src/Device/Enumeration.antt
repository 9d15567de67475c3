-- ===== src/Device/Enumeration.antt =====
-- The loops that turn sysfs or inventory entries into devices. Each round of `enumerateVfioDevices`
-- and of `npuDevicesFromInventory` ends in a `continue`, with or without a skipped device, in an
-- appended device, or in an error that ends the loop.
use rbln_k8s_dra_driver.Base.{
  ◌≡◌, refl, sym, ap, ◌∙◌, subst, List, [], ◌∷◌, Result, ok, err, ◌>>=◌, Option, arith, Member, inl,
  inr, ◌⊎◌, >>=-eq-ok,
}
use rbln_k8s_dra_driver.Go.Text.{Text}
use rbln_k8s_dra_driver.Go.Errors.{Error}
use rbln_k8s_dra_driver.Sriov.{SriovInfo}
use rbln_k8s_dra_driver.Device.Defs.{Device}

-- `skippedDevice`; no error means a PF that hosts VFs.
pub record SkippedDevice : Type 0 where
  pub name : Text
  pub pci_bus_id : Text
  pub sriov : Option SriovInfo
  pub error : Option Error

pub data Entry : Type 0 where
  ignored : Entry
  skipped : SkippedDevice → Entry
  published : Device → Entry

abbrev pub Enumeration : Type 0
Enumeration = List Device × List SkippedDevice

abbrev pub add_entry : Entry → Enumeration → Enumeration
add_entry ignored e = e
add_entry (skipped s) (devices, skips) = (devices, s ∷ skips)
add_entry (published d) (devices, skips) = (d ∷ devices, skips)

module _ {A : Type 0} (round : A → Result Error Entry) where
  unfoldable pub enumerate : List A → Result Error Enumeration
  enumerate [] = ok ([], [])
  enumerate (x ∷ xs) = do entry ← round x; rest ← enumerate xs; ok (add_entry entry rest)

  enumerate-cons :
      (x : A) (xs : List A) (e : Enumeration)
      → enumerate (x ∷ xs) ≡ ok e
      → (entry : Entry) × (rest : Enumeration) × (round x ≡ ok entry)
        × (enumerate xs ≡ ok rest)
        × (add_entry entry rest ≡ e)
  unfolding enumerate
  enumerate-cons x xs e h =
      let (entry, r, more) = >>=-eq-ok (round x) _ h in
      let (rest, s, done) = >>=-eq-ok (enumerate xs) _ more in (entry, rest, r, s, ground arith)

Member-add_entry :
    (entry : Entry) (e : Enumeration) (d : Device)
    → Member d (add_entry entry e).0
    → (entry ≡ published d) ⊎ Member d e.0
Member-add_entry ignored e d m = inr m
Member-add_entry (skipped s) e d m = inr m
Member-add_entry (published d') e d (inl same) = inl (cc)
Member-add_entry (published d') e d (inr m) = inr m

Member-add_entry_rest :
    (entry : Entry) (e : Enumeration) (d : Device) → Member d e.0 → Member d (add_entry entry e).0
Member-add_entry_rest ignored e d m = m
Member-add_entry_rest (skipped s) e d m = m
Member-add_entry_rest (published d') e d m = inr m

module _ {A : Type 0} (round : A → Result Error Entry) where
  -- A device is enumerated by a round over one of the entries.
  pub enumerate_sound :
      (xs : List A) (e : Enumeration) (d : Device)
      → enumerate round xs ≡ ok e
      → Member d e.0
      → (x : A) × Member x xs × (round x ≡ ok (published d))
  unfolding enumerate
  enumerate_sound [] e d h m = absurd (
      subst (λ (r : Result Error Enumeration). elim r [ ok f ↦ Member d f.0 | err f ↦ ⊥ ]) (sym h)
        m)
  enumerate_sound (x ∷ xs) e d h m =
      let (entry, rest, r, s, same) = enumerate-cons round x xs e h in
      elim (Member-add_entry entry rest d (rw same m)) [
        | inl here ↦ (x, inl refl, r ∙ ap ok here)
        | inr there ↦ let (y, at, q) = enumerate_sound xs rest d s there in (y, inr at, q)
      ]

  -- Every round that publishes has its device in the result.
  pub enumerate_complete :
      (xs : List A) (e : Enumeration) (d : Device) (x : A)
      → enumerate round xs ≡ ok e
      → Member x xs
      → round x ≡ ok (published d)
      → Member d e.0
  unfolding enumerate
  enumerate_complete [] e d x h m r = elim m [ ]
  enumerate_complete (y ∷ xs) e d x h m r =
      let (entry, rest, q, s, same) = enumerate-cons round y xs e h in
      elim m [
        | inl here ↦
            let now : published d ≡ entry = grind (arith, r, q, here) in
            rw (← same) (subst (λ f. Member d (add_entry f rest).0) now (inl refl))
        | inr there ↦
            rw (← same)
              (Member-add_entry_rest entry rest d (enumerate_complete xs rest d x s there r))
      ]
