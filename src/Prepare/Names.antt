-- ===== src/Prepare/Names.antt =====
-- The name of a native device node, which `applyConfig` of cmd/npu-kubelet-plugin/state.go tests
-- before it is put under /dev.
use rbln_k8s_dra_driver.Base.{
  ◌≡◌, refl, sym, ap, ◌∙◌, ◌⊎◌, inl, inr, Bool, true, false, ◌&&◌, not, ◌==◌, List, [], ◌∷◌, ◌++◌,
  arith,
}
use rbln_k8s_dra_driver.Go.Text.{Text, codes, text_eq, text_eq_sound, is_empty}
use rbln_k8s_dra_driver.Go.FilePath.{
  FilePath, slash, split_on, split, push, push_all, join, strip_slashes, last_of, base,
}
use rbln_k8s_dra_driver.Go.Maps.{text_key}
use rbln_k8s_dra_driver.Prepare.Node.{is_node_name}

abbrev slash_free : Text → Bool
slash_free [] = true
slash_free (c ∷ s) = not (c == slash) && slash_free s

abbrev all_slash_free : List Text → Bool
all_slash_free [] = true
all_slash_free (s ∷ segments) = slash_free s && all_slash_free segments

split_on-slash_free :
    (s : Text) → (slash_free (split_on s).0 && all_slash_free (split_on s).1) ≡ true
unfolding split_on
split_on-slash_free [] = refl
split_on-slash_free (c ∷ s) = ground (arith, split_on-slash_free s)

last_of-slash_free :
    (s : Text) (segments : List Text)
    → (slash_free s && all_slash_free segments) ≡ true
    → slash_free (last_of s segments) ≡ true
unfolding last_of
last_of-slash_free s [] h = ground arith
last_of-slash_free s (t ∷ segments) h = ground (arith, last_of-slash_free t segments)

base-slash_free : (name : Text) → (base name ≡ codes "/") ⊎ (slash_free (base name) ≡ true)
unfolding base
base-slash_free [] = inr refl
base-slash_free (c ∷ s) =
    let stripped = strip_slashes (c ∷ s) in
    ground (
      arith,
      last_of-slash_free (split_on stripped).0 (split_on stripped).1,
      split_on-slash_free stripped,
    )

split_on-segment : (s : Text) → slash_free s ≡ true → split_on s ≡ (s, [])
unfolding split_on
split_on-segment [] h = refl
split_on-segment (c ∷ s) h = ground (arith, split_on-segment s)

is_node_name-base :
    (name : Text)
    → is_node_name name ≡ true
    → (is_empty name ≡ false)
      × (text_eq name (codes ".") ≡ false)
      × (text_eq name (codes "..") ≡ false)
      × (base name ≡ name)
unfolding is_node_name
is_node_name-base name h =
    (ground arith, ground arith, ground arith, text_eq_sound (base name) name (ground arith))

join-segment :
    (p : FilePath) (name : Text)
    → is_empty name ≡ false
    → text_eq name (codes ".") ≡ false
    → text_eq name (codes "..") ≡ false
    → slash_free name ≡ true
    → join p name ≡ p ++ (name ∷ [])
unfolding join split push_all push
join-segment p name e d dd free = rw (split_on-segment name free, e, d, dd) refl

-- A name that passes the test is one segment under `/dev`, but for the slash itself.
pub join-is_node_name :
    (name : Text)
    → is_node_name name ≡ true
    → (name ≡ codes "/") ⊎ (join (codes "dev" ∷ []) name ≡ codes "dev" ∷ name ∷ [])
join-is_node_name name h =
    let (e, d, dd, same) = is_node_name-base name h in
    elim (base-slash_free name) [
      | inl root ↦ inl (sym same ∙ root)
      | inr free ↦
          inr (join-segment (codes "dev" ∷ []) name e d dd (ap slash_free (sym same) ∙ free))
    ]
