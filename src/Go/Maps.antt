-- ===== src/Go/Maps.antt =====
-- A Go map as an association list, in the order in which its keys were first set. The program
-- depends on no order of iteration.
use rbln_k8s_dra_driver.Base.{
  ◌≡◌, refl, ◌↔◌, String, Bool, true, List, [], ◌∷◌, Option, none, some, arith, str_eq, str_eq_iff,
  if◌then◌else◌,
}
use rbln_k8s_dra_driver.Go.Text.{Text, text_eq, text_eq_iff}

-- What `==` decides on keys.
pub record Eq (K : Type 0) : Type 0 where
  pub beq : K → K → Bool
  pub beq_iff : (a b : K) → (beq a b ≡ true) ↔ (a ≡ b)

instance abbrev pub string_key : Eq String
string_key = record { beq = str_eq; beq_iff = str_eq_iff }

instance abbrev pub text_key : Eq Text
text_key = record { beq = text_eq; beq_iff = text_eq_iff }

module _ {K V : Type 0} ⦃e : Eq K⦄ where
  -- `entries[key]`
  unfoldable pub lookup : K → List (K × V) → Option V
  lookup key [] = none
  lookup key (entry ∷ entries) = if e.beq entry.0 key then some entry.1 else lookup key entries

  -- `entries[key] = value`
  unfoldable pub insert : K → V → List (K × V) → List (K × V)
  insert key value [] = (key, value) ∷ []
  insert key value (entry ∷ entries) =
      if e.beq entry.0 key then (entry.0, value) ∷ entries else entry ∷ insert key value entries

  -- `delete(entries, key)`
  unfoldable pub delete : K → List (K × V) → List (K × V)
  delete key [] = []
  delete key (entry ∷ entries) =
      let rest = delete key entries in if e.beq entry.0 key then rest else entry ∷ rest

  pub lookup-insert :
      (key other : K) (value : V) (entries : List (K × V))
      → lookup other (insert key value entries)
        ≡ (if e.beq key other then some value else lookup other entries)
  unfolding insert lookup
  lookup-insert key other value [] = refl
  lookup-insert key other value (entry ∷ entries) = ground (
    arith,
    lookup-insert key other value entries,
    e.beq_iff entry.0 key,
    e.beq_iff entry.0 other,
    e.beq_iff key other,
  )

  pub lookup-delete :
      (key other : K) (entries : List (K × V))
      → lookup other (delete key entries) ≡ (if e.beq key other then none else lookup other entries)
  unfolding delete lookup
  lookup-delete key other [] = ground arith
  lookup-delete key other (entry ∷ entries) = ground (
    arith,
    lookup-delete key other entries,
    e.beq_iff entry.0 key,
    e.beq_iff entry.0 other,
    e.beq_iff key other,
  )

  pub lookup-insert_self :
      (key : K) (value : V) (entries : List (K × V))
      → lookup key (insert key value entries) ≡ some value
  lookup-insert_self key value entries =
      ground (arith, e.beq_iff key key, lookup-insert key key value entries)
