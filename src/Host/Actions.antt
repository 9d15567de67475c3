-- ===== src/Host/Actions.antt =====
-- A call that may change the node's state and may fail. The state comes back after a failure too.
use rbln_k8s_dra_driver.Base.{Result, ok, err, map_err}
use rbln_k8s_dra_driver.Go.Errors.{OsError, Error, os, wrap}
use rbln_k8s_dra_driver.Base.{String}

abbrev pub Action : Type 0 → Type 0 → Type 0
Action S A = S → Result Error A × S

module _ {S : Type 0} where
  abbrev pub pure : {A : Type 0} → A → Action S A
  pure a s = (ok a, s)

  abbrev pub fail : {A : Type 0} → Error → Action S A
  fail e s = (err e, s)

  -- A call that only reads.
  abbrev pub reads : {A : Type 0} → (S → Result Error A) → Action S A
  reads f s = (f s, s)

  infixl 5 ◌>>=◌ ◌>>◌
  abbrev pub ◌>>=◌ : {A B : Type 0} → Action S A → (A → Action S B) → Action S B
  ◌>>=◌ m f s = let (r, s') = m s in elim r [ ok a ↦ f a s' | err e ↦ (err e, s') ]

  abbrev pub ◌>>◌ : {B : Type 0} → Action S (Unit {0}) → Action S B → Action S B
  m >> k = m >>= λ _. k

  -- A call of the operating system, with the message that is put before its error.
  abbrev pub os_call : {A : Type 0} → String → (S → Result OsError A × S) → Action S A
  os_call m f s = let (r, s') = f s in (map_err (λ e. wrap m (os e)) r, s')

  -- `if err != nil { return fmt.Errorf("…: %w", err) }`
  abbrev pub wrapping : {A : Type 0} → String → Action S A → Action S A
  wrapping m f s = let (r, s') = f s in (map_err (wrap m) r, s')
