-- ===== src/Logging/Laws.antt =====
-- A second rewriting changes nothing: the handlers pass the attributes of an inlined group through
-- `replaceAttr` again.
use rbln_k8s_dra_driver.Base.{◌≡◌, refl, List, [], ◌∷◌, ℕ, ℤ, negsuc, arith, ◌⊎◌, inl, inr}
use rbln_k8s_dra_driver.Go.Text.{Text, codes, text_eq}
use rbln_k8s_dra_driver.Logging.Level.{level_name, klog_verbosity}
use rbln_k8s_dra_driver.Logging.Attrs.{
  Value, Attrs, Attr, time_value, level_value, source_value, string_value, int_value, group_value,
  nil_value, other_value, no_attrs, attr, level_attr, source_attr, replace_level, replace_source,
  replace_time, replace_top, replace_attr, level_key,
}

-- Every attribute of the list passes.
abbrev pub AllPass : {Time : Type 0} → (Time → Text) → Attrs Time → Type 0
AllPass rfc3339_nano no_attrs = Unit
AllPass rfc3339_nano (attr key v rest) =
    (replace_attr rfc3339_nano [] (key, v) ≡ (key, v)) × AllPass rfc3339_nano rest

module _ {Time : Type 0} (rfc3339_nano : Time → Text) where
  -- A value of the kind that the key expects is rewritten, any other passes.
  replace_time-cases :
      (key : Text) (v : Value Time)
      → (replace_time rfc3339_nano (key, v) ≡ (key, v))
        ⊎ ((s : Text) × (replace_time rfc3339_nano (key, v) ≡ (codes "ts", string_value s)))
  unfolding replace_time
  replace_time-cases key (time_value t) = inr (rfc3339_nano t, refl)
  replace_time-cases key (level_value l) = inl refl
  replace_time-cases key (source_value file line) = inl refl
  replace_time-cases key (string_value s) = inl refl
  replace_time-cases key (int_value n) = inl refl
  replace_time-cases key (group_value g) = inl refl
  replace_time-cases key nil_value = inl refl
  replace_time-cases key (other_value s) = inl refl

  replace_level-cases :
      (key : Text) (v : Value Time)
      → (replace_level (key, v) ≡ (key, v))
        ⊎ ((n : ℕ) × (name : Text) × (replace_level (key, v) ≡ level_attr n name))
  unfolding replace_level
  replace_level-cases key (time_value t) = inl refl
  replace_level-cases key (level_value l) = inr (klog_verbosity l, level_name l, refl)
  replace_level-cases key (source_value file line) = inl refl
  replace_level-cases key (string_value s) = inl refl
  replace_level-cases key (int_value n) = inl refl
  replace_level-cases key (group_value g) = inl refl
  replace_level-cases key nil_value = inl refl
  replace_level-cases key (other_value s) = inl refl

  replace_source-cases :
      (key : Text) (v : Value Time)
      → (replace_source (key, v) ≡ (key, v))
        ⊎ ((file : Text) × (line : ℤ) × (replace_source (key, v) ≡ source_attr file line))
  unfolding replace_source
  replace_source-cases key (time_value t) = inl refl
  replace_source-cases key (level_value l) = inl refl
  replace_source-cases key (source_value file line) = inr (file, line, refl)
  replace_source-cases key (string_value s) = inl refl
  replace_source-cases key (int_value n) = inl refl
  replace_source-cases key (group_value g) = inl refl
  replace_source-cases key nil_value = inl refl
  replace_source-cases key (other_value s) = inl refl

  -- What a rewriting gives is passed by the next one.
  replace_top_idem :
      (key : Text) (v : Value Time)
      → replace_top rfc3339_nano (replace_top rfc3339_nano (key, v))
        ≡ replace_top rfc3339_nano (key, v)
  unfolding replace_top
  replace_top_idem key v =
      ground
        (arith, replace_time-cases key v, replace_level-cases key v, replace_source-cases key v)

  replace_attr_twice :
      (groups : List Text) (a : Attr Time)
      → replace_attr rfc3339_nano groups (replace_attr rfc3339_nano groups a)
        ≡ replace_attr rfc3339_nano groups a
  unfolding replace_attr
  replace_attr_twice [] a = replace_top_idem a.0 a.1
  replace_attr_twice (group ∷ groups) a = refl

  -- Rewriting an attribute that was rewritten before changes nothing, whatever its key, its value and
  -- the open groups are. A level below info becomes a group without a key, and each attribute in it,
  -- which the handlers hand to the rewriting again, passes as it is.
  pub replace_attr_idem :
      ((groups : List Text) (a : Attr Time)
        → replace_attr rfc3339_nano groups (replace_attr rfc3339_nano groups a)
          ≡ replace_attr rfc3339_nano groups a)
      × ((n : ℕ)
          → (inlined : Attrs Time) × (replace_attr rfc3339_nano []
                (level_key, level_value (negsuc n))
              ≡ ([], group_value inlined))
            × AllPass rfc3339_nano inlined)
  unfolding replace_attr level_attr text_eq klog_verbosity
  replace_attr_idem = (replace_attr_twice, λ n. (_, refl, (refl, (refl, tt))))
