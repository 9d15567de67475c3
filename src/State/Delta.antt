-- ===== src/State/Delta.antt =====
-- `deviceNameDelta` of state.go, and `equality.Semantic.DeepEqual` of Kubernetes, which is not part
-- of the repository.
use rbln_k8s_dra_driver.Base.{
  ◌≡◌, refl, ◌∙◌, Bool, true, false, ◌&&◌, not, List, [], ◌∷◌, Option, none, some, if◌then◌else◌,
  arith,
}
use rbln_k8s_dra_driver.Go.Text.{Text, text_eq_iff, contains}
use rbln_k8s_dra_driver.Go.Maps.{lookup, insert, text_key, lookup-insert}
use rbln_k8s_dra_driver.Device.Defs.{Device}
use rbln_k8s_dra_driver.State.Defs.{AllocatableDevices, index, index_onto}

-- `DeepEqual` on devices and on lists of them.
pub record DeepEqual : Type 0 where
  pub same_device : Device → Device → Bool
  pub same_devices : List Device → List Device → Bool

-- The names in the result of `deviceNameDelta`.
pub record Delta : Type 0 where
  pub added : List Text
  pub removed : List Text
  pub changed : List Text

unfoldable pub is_none : Option Device → Bool
is_none none = true
is_none (some d) = false

unfoldable pub added_names : AllocatableDevices → List Device → List Text
added_names by_name [] = []
added_names by_name (d ∷ devices) =
    let rest = added_names by_name devices in
    if is_none (lookup d.name by_name) then d.name ∷ rest else rest

module _ (eq : DeepEqual) where
  unfoldable pub differs : Option Device → Device → Bool
  differs none d = false
  differs (some p) d = not (eq.same_device p d)

  unfoldable pub changed_names : AllocatableDevices → List Device → List Text
  changed_names by_name [] = []
  changed_names by_name (d ∷ devices) =
      let rest = changed_names by_name devices in
      if differs (lookup d.name by_name) d then d.name ∷ rest else rest

  -- `deviceNameDelta`. The first loop appends to two lists, here each has a loop of its own. The
  -- second loop collects the names of `prev` that are not in `next`.
  unfoldable pub device_name_delta : List Device → List Device → Delta
  device_name_delta prev next = record {
    added = added_names (index prev) next;
    removed = added_names (index next) prev;
    changed = changed_names (index prev) next;
  }

abbrev pub names : List Device → List Text
names [] = []
names (d ∷ devices) = d.name ∷ names devices

-- A name is indexed if it is a name of the list, or was there before.
is_none-index_onto :
    (m : AllocatableDevices) (devices : List Device) (name : Text)
    → is_none (lookup name (index_onto m devices))
      ≡ (is_none (lookup name m) && not (contains (names devices) name))
unfolding index_onto contains
is_none-index_onto m [] name = ground arith
is_none-index_onto m (d ∷ devices) name =
    rw (is_none-index_onto (insert d.name d m) devices name, lookup-insert)
      (unfold is_none in ground arith)

is_none-index :
    (devices : List Device) (name : Text)
    → is_none (lookup name (index devices)) ≡ not (contains (names devices) name)
unfolding index
is_none-index devices name = is_none-index_onto [] devices name ∙ unfold is_none lookup in refl

contains-added_names :
    (prev next : List Device) (name : Text)
    → contains (added_names (index prev) next) name
      ≡ (contains (names next) name && not (contains (names prev) name))
unfolding added_names contains
contains-added_names prev [] name = refl
contains-added_names prev (d ∷ next) name =
    ground (
      arith,
      is_none-index prev d.name,
      text_eq_iff d.name name,
      contains-added_names prev next name,
    )

differs-is_none :
    (eq : DeepEqual) (o : Option Device) (d : Device) → differs eq o d ≡ true → is_none o ≡ false
unfolding differs is_none
differs-is_none eq none d h = cc
differs-is_none eq (some p) d h = refl

contains-changed_names :
    (eq : DeepEqual) (prev next : List Device) (name : Text)
    → contains (changed_names eq (index prev) next) name ≡ true
    → (contains (names next) name ≡ true) × (contains (names prev) name ≡ true)
unfolding changed_names contains
contains-changed_names eq prev [] name h = absurd (cc)
contains-changed_names eq prev (d ∷ next) name h = ground (
  arith,
  is_none-index prev d.name,
  text_eq_iff d.name name,
  differs-is_none eq (lookup d.name (index prev)) d,
  contains-changed_names eq prev next name,
)

-- A name is reported as added exactly when it is a name of `next` and not of `prev`, as removed
-- exactly when it is one of `prev` and not of `next`, and as changed only if it is one of both.
pub device_name_delta_lem :
    (eq : DeepEqual) (prev next : List Device) (name : Text)
    → let delta = device_name_delta eq prev next in
      (contains delta.added name ≡ (contains (names next) name && not (contains (names prev) name)))
      × (contains delta.removed name
          ≡ (contains (names prev) name && not (contains (names next) name)))
      × (contains delta.changed name ≡ true
          → (contains (names next) name ≡ true) × (contains (names prev) name ≡ true))
unfolding device_name_delta
device_name_delta_lem eq prev next name = (
  contains-added_names prev next name,
  contains-added_names next prev name,
  contains-changed_names eq prev next name,
)
