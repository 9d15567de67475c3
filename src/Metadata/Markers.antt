-- ===== src/Metadata/Markers.antt =====
-- The owner markers of metadata directories, when directories are removed:
-- cmd/npu-kubelet-plugin/kubevirt_metadata.go.
use rbln_k8s_dra_driver.Base.{
  ◌≡◌, refl, sym, ap, ◌∙◌, true, false, List, [], ◌∷◌, ◌++◌, Result, ok, err, arith, Bool, inl, inr,
  Member, Bool-cases, if◌then◌else◌,
}
use rbln_k8s_dra_driver.Go.Text.{Text, text_eq, text_eq_sound, text_eq_refl}
use rbln_k8s_dra_driver.Go.FilePath.{FilePath, is_element, join-is_element}
use rbln_k8s_dra_driver.Go.Errors.{OsError, not_exist}
use rbln_k8s_dra_driver.Host.{Host, DirEntry}
use rbln_k8s_dra_driver.Host.Dirs.{KeepsDirs, is_under}
use rbln_k8s_dra_driver.Metadata.{kubevirt_metadata_owner_file, owner_of, is_owner, owned_entry}
use rbln_k8s_dra_driver.Metadata.Directory.{owner_file-is_element}

abbrev pub marker_in : FilePath → Text → FilePath
marker_in parent name = parent ++ (name ∷ []) ++ (kubevirt_metadata_owner_file ∷ [])

is_under-sibling :
    (parent : FilePath) (a b m : Text)
    → is_under (parent ++ (a ∷ [])) (parent ++ (b ∷ []) ++ (m ∷ [])) ≡ text_eq a b
unfolding is_under
is_under-sibling [] a b m = ground arith
is_under-sibling (x ∷ parent) a b m = ground (arith, text_eq_refl x, is_under-sibling parent a b m)

module _ (h : Host) where
  -- Whether an entry is the claim's, by what reading its marker gives.
  abbrev owned_by : DirEntry → Text → Result OsError Text → Bool
  owned_by e claim_uid read = if e.is_dir then is_owner h (owner_of h read) claim_uid else false

  abbrev pub IsForeign : FilePath → Text → h.State → DirEntry → Type 0
  IsForeign parent claim_uid s e = owned_entry h parent claim_uid e s ≡ false

  -- No listed directory is marked as the claim's.
  abbrev pub NoneOwned : FilePath → Text → h.State → Type 0
  NoneOwned parent claim_uid s =
      (entries : List DirEntry) (e : DirEntry)
      → h.read_dir s parent ≡ ok entries
      → Member e entries
      → IsForeign parent claim_uid s e

  owned_entry-marker :
      (parent : FilePath) (claim_uid : Text) (e : DirEntry) (s : h.State)
      → is_element e.name ≡ true
      → owned_entry h parent claim_uid e s
        ≡ owned_by e claim_uid (h.read_file s (marker_in parent e.name))
  unfolding owned_entry
  owned_entry-marker parent claim_uid e s n =
      rw
        (
          join-is_element parent e.name n,
          join-is_element (parent ++ (e.name ∷ [])) kubevirt_metadata_owner_file
              owner_file-is_element,
        )
        refl

  -- What is read of the marker decides.
  pub IsForeign-same :
      (parent : FilePath) (claim_uid : Text) (e : DirEntry) (s s' : h.State)
      → is_element e.name ≡ true
      → h.read_file s' (marker_in parent e.name) ≡ h.read_file s (marker_in parent e.name)
      → IsForeign parent claim_uid s e
      → IsForeign parent claim_uid s' e
  IsForeign-same parent claim_uid e s s' n same foreign =
      owned_entry-marker parent claim_uid e s' n
      ∙ ap (owned_by e claim_uid) same
      ∙ sym (owned_entry-marker parent claim_uid e s n)
      ∙ foreign

  owned_by-err :
      (e : DirEntry) (claim_uid : Text) (x : OsError) → owned_by e claim_uid (err x) ≡ false
  unfolding owner_of is_owner
  owned_by-err e claim_uid x = ground arith

  pub IsForeign-gone :
      (parent : FilePath) (claim_uid : Text) (e : DirEntry) (s : h.State) (x : OsError)
      → is_element e.name ≡ true
      → h.read_file s (marker_in parent e.name) ≡ err x
      → IsForeign parent claim_uid s e
  IsForeign-gone parent claim_uid e s x n gone =
      owned_entry-marker parent claim_uid e s n
      ∙ ap (owned_by e claim_uid) gone
      ∙ owned_by-err e claim_uid x

module _ (h : Host) (root : FilePath) (k : KeepsDirs h root) (parent : FilePath)
    (claim_uid : Text) where
  pub remove_all-IsForeign :
      (e : DirEntry) (name : Text) (s : h.State)
      → is_element e.name ≡ true
      → (h.remove_all (parent ++ (name ∷ [])) s).0 ≡ ok tt
      → IsForeign h parent claim_uid s e
      → IsForeign h parent claim_uid (h.remove_all (parent ++ (name ∷ [])) s).1 e
  remove_all-IsForeign e name s n done foreign = elim (Bool-cases (text_eq name e.name)) [
    | inl same ↦ IsForeign-gone h parent claim_uid e _ not_exist n (
        ap (λ t. h.read_file (h.remove_all (parent ++ (name ∷ [])) s).1 (marker_in parent t))
          (sym (text_eq_sound name e.name same))
        ∙ k.remove-files (parent ++ (name ∷ [])) (kubevirt_metadata_owner_file ∷ []) s done)
    | inr other ↦
        IsForeign-same h parent claim_uid e s _ n
          (k.remove-other_files (parent ++ (name ∷ [])) _ s
            (is_under-sibling parent name e.name kubevirt_metadata_owner_file ∙ other))
          foreign
  ]
