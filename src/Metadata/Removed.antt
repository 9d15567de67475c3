-- ===== src/Metadata/Removed.antt =====
-- What `removeKubeVirtMetadataForClaim` of cmd/npu-kubelet-plugin/kubevirt_metadata.go leaves of the
-- metadata of a claim, in each of the directories that it scans.
use rbln_k8s_dra_driver.Base.{
  ◌≡◌, refl, sym, ap, ◌∙◌, true, List, [], ◌∷◌, ◌++◌, ok, err, arith, subst, inl, inr, ◌⊎◌, Member,
  Bool-cases, Result-cases,
}
use rbln_k8s_dra_driver.Go.Text.{Text}
use rbln_k8s_dra_driver.Go.FilePath.{FilePath, is_element, join-is_element}
use rbln_k8s_dra_driver.Go.Errors.{OsError, not_exist, errno}
use rbln_k8s_dra_driver.Host.{Host, DirEntry}
use rbln_k8s_dra_driver.Host.Dirs.{KeepsDirs}
use rbln_k8s_dra_driver.Metadata.{
  kubevirt_metadata_owner_file, owned_entry, remove_owned, remove_listed, remove_under,
}
use rbln_k8s_dra_driver.Metadata.Markers.{
  IsForeign, NoneOwned, IsForeign-gone, remove_all-IsForeign,
}

module _ (h : Host) (root : FilePath) (k : KeepsDirs h root) (parent : FilePath)
    (claim_uid : Text) where
  abbrev pub AllNames : List DirEntry → Type 0
  AllNames [] = Unit
  AllNames (e ∷ entries) = (is_element e.name ≡ true) × AllNames entries

  -- One round of the loop: the entry is removed, or it is not the claim's.
  pub remove_owned-cons :
      (e : DirEntry) (entries : List DirEntry) (s : h.State)
      → is_element e.name ≡ true
      → (remove_owned h parent claim_uid (e ∷ entries) s).0 ≡ ok tt
      → (((h.remove_all (parent ++ (e.name ∷ [])) s).0 ≡ ok tt)
          × (remove_owned h parent claim_uid (e ∷ entries) s
              ≡ remove_owned h parent claim_uid entries
                  (h.remove_all (parent ++ (e.name ∷ [])) s).1))
        ⊎ (IsForeign h parent claim_uid s e
            × (remove_owned h parent claim_uid (e ∷ entries) s
                ≡ remove_owned h parent claim_uid entries s))
  unfolding remove_owned
  remove_owned-cons e entries s n done = elim (Bool-cases (owned_entry h parent claim_uid e s)) [
    | inr foreign ↦ inr (foreign, ground arith)
    | inl own ↦
        let at = join-is_element parent e.name n in
        elim (Result-cases (h.remove_all (parent ++ (e.name ∷ [])) s).0) [
          | inl (u, r) ↦ inl (r, ground arith)
          | inr (x, r) ↦ absurd (ground arith)
        ]
  ]

  remove_owned-IsForeign :
      (entries : List DirEntry) (s : h.State) (e : DirEntry)
      → AllNames entries
      → is_element e.name ≡ true
      → (remove_owned h parent claim_uid entries s).0 ≡ ok tt
      → IsForeign h parent claim_uid s e
      → IsForeign h parent claim_uid (remove_owned h parent claim_uid entries s).1 e
  remove_owned-IsForeign [] s e a n done foreign = unfold remove_owned in foreign
  remove_owned-IsForeign (x ∷ entries) s e (m, a) n done foreign =
      elim (remove_owned-cons x entries s m done) [
        | inl (r, same) ↦ rw same (
            remove_owned-IsForeign entries _ e a n (sym (ap (λ t. t.0) same) ∙ done)
              (remove_all-IsForeign h root k parent claim_uid e x.name s n r foreign))
        | inr (other, same) ↦
            rw same
              (remove_owned-IsForeign entries s e a n (sym (ap (λ t. t.0) same) ∙ done) foreign)
      ]

  remove_owned-first :
      (x : DirEntry) (entries : List DirEntry) (s : h.State)
      → is_element x.name ≡ true
      → AllNames entries
      → (remove_owned h parent claim_uid (x ∷ entries) s).0 ≡ ok tt
      → IsForeign h parent claim_uid (remove_owned h parent claim_uid (x ∷ entries) s).1 x
  remove_owned-first x entries s m a done = elim (remove_owned-cons x entries s m done) [
    | inl (r, same) ↦ rw same (
        remove_owned-IsForeign entries _ x a m (sym (ap (λ t. t.0) same) ∙ done) (
          IsForeign-gone h parent claim_uid x _ not_exist m
            (k.remove-files (parent ++ (x.name ∷ [])) (kubevirt_metadata_owner_file ∷ []) s r)))
    | inr (other, same) ↦
        rw same (remove_owned-IsForeign entries s x a m (sym (ap (λ t. t.0) same) ∙ done) other)
  ]

  remove_owned-AllForeign :
      (entries : List DirEntry) (s : h.State) (e : DirEntry)
      → AllNames entries
      → (remove_owned h parent claim_uid entries s).0 ≡ ok tt
      → Member e entries
      → IsForeign h parent claim_uid (remove_owned h parent claim_uid entries s).1 e
  remove_owned-AllForeign [] s e a done there = elim there [ ]
  remove_owned-AllForeign (x ∷ entries) s e (m, a) done (inl here) =
      subst
        (λ t. IsForeign h parent claim_uid (remove_owned h parent claim_uid (x ∷ entries) s).1 t)
        (sym here) (remove_owned-first x entries s m a done)
  remove_owned-AllForeign (x ∷ entries) s e (m, a) done (inr later) =
      elim (remove_owned-cons x entries s m done) [
        | inl (r, same) ↦
            rw same (remove_owned-AllForeign entries _ e a (sym (ap (λ t. t.0) same) ∙ done) later)
        | inr (other, same) ↦
            rw same (remove_owned-AllForeign entries s e a (sym (ap (λ t. t.0) same) ∙ done) later)
      ]

  -- The loop lists nothing new.
  remove_owned-listed :
      (entries : List DirEntry) (s : h.State) (later : List DirEntry) (e : DirEntry)
      → AllNames entries
      → (remove_owned h parent claim_uid entries s).0 ≡ ok tt
      → h.read_dir (remove_owned h parent claim_uid entries s).1 parent ≡ ok later
      → Member e later
      → (before : List DirEntry) × (h.read_dir s parent ≡ ok before) × Member e before
  remove_owned-listed [] s later e a done read there = (later, unfold remove_owned in read, there)
  remove_owned-listed (x ∷ entries) s later e (m, a) done read there =
      elim (remove_owned-cons x entries s m done) [
        | inl (r, same) ↦
            let (before, listed, here) =
              remove_owned-listed entries _ later e a (sym (ap (λ t. t.0) same) ∙ done)
                (sym (ap (λ t. h.read_dir t.1 parent) same) ∙ read) there in
            k.remove-listed parent x.name s before e listed here
        | inr (other, same) ↦
            remove_owned-listed entries s later e a (sym (ap (λ t. t.0) same) ∙ done)
              (sym (ap (λ t. h.read_dir t.1 parent) same) ∙ read) there
      ]

  pub read-AllNames :
      (s : h.State) (entries : List DirEntry)
      → ((e : DirEntry) → Member e entries → is_element e.name ≡ true)
      → AllNames entries
  read-AllNames s [] n = tt
  read-AllNames s (e ∷ entries) n = (n e (inl refl), read-AllNames s entries (λ x m. n x (inr m)))

  pub remove_under-missing :
      (s : h.State) (x : OsError)
      → h.read_dir s parent ≡ err x
      → (remove_under h parent claim_uid s).0 ≡ ok tt
      → (remove_under h parent claim_uid s).1 ≡ s
  unfolding remove_under remove_listed
  remove_under-missing s not_exist r done = rw r refl
  remove_under-missing s (errno n) r done = absurd (ground arith)

  -- After the scan of one directory no entry in it is the claim's.
  pub remove_under-NoneOwned :
      (s : h.State)
      → (remove_under h parent claim_uid s).0 ≡ ok tt
      → NoneOwned h parent claim_uid (remove_under h parent claim_uid s).1
  unfolding remove_under remove_listed
  remove_under-NoneOwned s done later e read there = elim (Result-cases (h.read_dir s parent)) [
    | inl (entries, r) ↦
        let a = read-AllNames s entries (λ x m. k.names parent s entries x r m) in
        let same : remove_under h parent claim_uid s ≡ remove_owned h parent claim_uid entries s =
          rw r refl in
        let done' = sym (ap (λ t. t.0) same) ∙ done in
        let (before, listed, here) =
          remove_owned-listed entries s later e a done'
            (sym (ap (λ t. h.read_dir t.1 parent) same) ∙ read) there in
        let one : before ≡ entries = ground arith in
        rw same (remove_owned-AllForeign entries s e a done' (subst (λ t. Member e t) one here))
    | inr (x, r) ↦
        let still = remove_under-missing s x r done in
        let gone = ap (λ t. h.read_dir t parent) still ∙ r in absurd (ground arith)
  ]
