-- ===== src/Logging/Grpc.antt =====
-- The adapter for the records of grpc-go: pkg/logging/grpclog.go.
use rbln_k8s_dra_driver.Base.{
  ◌≡◌, refl, Bool, true, false, List, [], ◌∷◌, ◌++◌, if◌then◌else◌, ℤ, leb_ℤ,
}
use rbln_k8s_dra_driver.Go.Text.{Text, codes}
use rbln_k8s_dra_driver.Logging.Level.{level_debug, level_warn, level_error}

-- The four families of methods of `grpcLogger`. Within a family the methods differ in how they
-- make the text.
pub data Severity : Type 0 where
  info warning error fatal : Severity

unfoldable pub grpc_level : Severity → ℤ
grpc_level info = level_debug
grpc_level warning = level_warn
grpc_level error = level_error
grpc_level fatal = level_error

unfoldable pub exits : Severity → Bool
exits fatal = true
exits other = false

-- The text that is logged, if the logger's level lets it pass, and whether the process then exits.
unfoldable pub log_grpc : ℤ → Severity → Text → List (ℤ × Text) × Bool
unfolding grpc_level exits
log_grpc gate severity msg = (
  if leb_ℤ gate (grpc_level severity) then (grpc_level severity, msg) ∷ [] else [],
  exits severity,
)

-- `V`, at any verbosity.
unfoldable pub grpc_v : ℤ → Bool
grpc_v gate = leb_ℤ gate level_debug

-- `fmt.Sprintln` on operands that are printed already: blanks between them, a newline at the end.
unfoldable pub sprintln : List Text → Text
sprintln [] = b'\n' ∷ []
sprintln (arg ∷ []) = arg ++ (b'\n' ∷ [])
sprintln (arg ∷ next ∷ args) = arg ++ (b' ' ∷ sprintln (next ∷ args))

-- `s[:len(s)-1]`
unfoldable pub drop_last_byte : Text → Text
drop_last_byte [] = []
drop_last_byte (c ∷ []) = []
drop_last_byte (c ∷ d ∷ s) = c ∷ drop_last_byte (d ∷ s)

-- `sprintlnTrim`
unfoldable pub sprintln_trim : List Text → Text
unfolding drop_last_byte sprintln
sprintln_trim args = drop_last_byte (sprintln args)

trims :
    (sprintln_trim (codes "a" ∷ codes "b c" ∷ []) ≡ codes "a b c") × (sprintln_trim [] ≡ codes "")
unfolding sprintln_trim
trims = (refl, refl)
