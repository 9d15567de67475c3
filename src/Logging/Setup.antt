-- ===== src/Logging/Setup.antt =====
-- The logger that the environment asks for, and what the bridges take from it: `setupFromEnv` and
-- `BridgeKlog` of pkg/logging/logging.go.
use rbln_k8s_dra_driver.Base.{
  ℕ, suc, ◌≤◌, ◌≡◌, refl, Bool, List, [], ◌∷◌, ◌++◌, Result, ok, err, ◌>>=◌, if◌then◌else◌, leb, ℤ,
  negsuc, leb_ℤ, arith, inl, inr, Result-cases,
}
use rbln_k8s_dra_driver.Go.Text.{Text, codes, text_eq}
use rbln_k8s_dra_driver.Go.Errors.{Error}
use rbln_k8s_dra_driver.Logging.Level.{
  level_debug, level_info, level_warn, parse_level, parse_format, level_name, klog_verbosity,
  IsNamed, IsFormat, parse_level-IsNamed, parse_level-level_name_named, parse_format-IsFormat,
  parse_format_named, klog_verbosity-IsNamed,
}

-- What the options and the choice of the handler depend on.
pub record Logger : Type 0 where
  pub level : ℤ
  pub add_source : Bool
  pub is_text : Bool

-- `newLogger`
unfoldable pub new_logger : ℤ → Text → Logger
new_logger lvl format = record {
  level = lvl;
  add_source = leb_ℤ lvl level_debug;
  is_text = text_eq format (codes "text");
}

-- `New`
unfoldable pub new : Text → Text → Result Error Logger
unfolding new_logger
new level format = do lvl ← parse_level level; f ← parse_format format; ok (new_logger lvl f)

abbrev pub env_log_level : Text
env_log_level = codes "RBLN_DRA_DRIVER_LOG_LEVEL"

abbrev pub env_log_format : Text
env_log_format = codes "RBLN_DRA_DRIVER_LOG_FORMAT"

-- The record of a value that cannot be read.
pub record Warning : Type 0 where
  pub variable : Text
  pub fallback : Text

-- The three results of `setupFromEnv`, and the warnings that pass the level of the logger.
pub record Setup : Type 0 where
  pub logger : Logger
  pub level : Text
  pub format : Text
  pub warnings : List Warning

unfoldable pub level_or_info : Result Error ℤ → ℤ
level_or_info (ok l) = l
level_or_info (err e) = level_info

unfoldable pub format_or_json : Result Error Text → Text
format_or_json (ok f) = f
format_or_json (err e) = codes "json"

-- `if err != nil { logger.Warn(...) }`
unfoldable pub warn_of {ℓ} : {A : Type ℓ} → Text → Text → Result Error A → List Warning
warn_of variable fallback (ok a) = []
warn_of variable fallback (err e) = record { variable = variable; fallback = fallback } ∷ []

-- `setupFromEnv`, on the values of the two variables, empty where they are not set.
unfoldable pub setup_from_env : Text → Text → Setup
unfolding level_or_info format_or_json warn_of new_logger
setup_from_env level_value format_value =
    let lvl = level_or_info (parse_level level_value) in
    let format = format_or_json (parse_format format_value) in
    record {
      logger = new_logger lvl format;
      level = level_name lvl;
      format = format;
      warnings =
          if leb_ℤ lvl level_warn
          then warn_of env_log_level (codes "info") (parse_level level_value)
            ++ warn_of env_log_format (codes "json") (parse_format format_value)
          else [];
    }

-- `BridgeKlog`: the value that it sets `-v` to.
unfoldable pub bridge_klog : Text → ℕ
unfolding level_or_info
bridge_klog level = klog_verbosity (level_or_info (parse_level level))

level_or_info-IsNamed : (s : Text) → IsNamed (level_or_info (parse_level s))
unfolding level_or_info
level_or_info-IsNamed s = elim (Result-cases (parse_level s)) [
  | inl (l, e) ↦ rw e (parse_level-IsNamed s l e)
  | inr (x, e) ↦ rw e (inl refl)
]

format_or_json-IsFormat : (s : Text) → IsFormat (format_or_json (parse_format s))
unfolding format_or_json
format_or_json-IsFormat s = elim (Result-cases (parse_format s)) [
  | inl (f, e) ↦ rw e (parse_format-IsFormat s f e)
  | inr (x, e) ↦ rw e (inl refl)
]

-- The level that `setupFromEnv` returns as a name is read back as the logger's.
setup_from_env-level :
    (level_value format_value : Text)
    → let setup = setup_from_env level_value format_value in
      parse_level setup.level ≡ ok setup.logger.level
unfolding setup_from_env
setup_from_env-level level_value format_value =
    parse_level-level_name_named _ (level_or_info-IsNamed level_value)

setup_from_env-format :
    (level_value format_value : Text)
    → let setup = setup_from_env level_value format_value in
      parse_format setup.format ≡ ok setup.format
unfolding setup_from_env
setup_from_env-format level_value format_value =
    parse_format_named _ (format_or_json-IsFormat format_value)

-- Whatever the two variables hold, the level and the format that `SetupFromEnv` returns make `New`
-- build the logger that it installed. A variable that can be read has decided its setting, and one
-- that cannot has left it at info or json, whatever the other one holds.
pub setup_from_env-new :
    (level_value format_value : Text)
    → let setup = setup_from_env level_value format_value in
      (new setup.level setup.format ≡ ok setup.logger)
      × ((l : ℤ) → parse_level level_value ≡ ok l → setup.logger.level ≡ l)
      × ((e : Error) → parse_level level_value ≡ err e → setup.logger.level ≡ level_info)
      × ((f : Text) → parse_format format_value ≡ ok f → setup.format ≡ f)
      × ((e : Error) → parse_format format_value ≡ err e → setup.format ≡ codes "json")
unfolding setup_from_env new level_or_info format_or_json
setup_from_env-new level_value format_value = (
  rw (setup_from_env-level level_value format_value, setup_from_env-format level_value format_value)
      refl,
  λ l e. rw e refl,
  λ x e. rw e refl,
  λ f e. rw e refl,
  λ x e. rw e refl,
)

admits : (l : ℤ) (n : ℕ) → leb (suc n) (klog_verbosity l) ≡ leb_ℤ l (negsuc n)
unfolding klog_verbosity
admits l n = ground arith

-- Whatever the two variables hold, the verbosity that `BridgeKlog` derives from the returned level
-- admits a record V(n) of klog with a positive n, which arrives at level -n, exactly if the
-- installed logger's level is at most -n; and it is never above 8.
pub bridge_klog-setup_from_env :
    (level_value format_value : Text)
    → let setup = setup_from_env level_value format_value in
      ((n : ℕ) → leb (suc n) (bridge_klog setup.level) ≡ leb_ℤ setup.logger.level (negsuc n))
      × (bridge_klog setup.level ≤ 8)
unfolding bridge_klog level_or_info
bridge_klog-setup_from_env level_value format_value =
    let setup = setup_from_env level_value format_value in
    rw (setup_from_env-level level_value format_value) (
      admits setup.logger.level,
      klog_verbosity-IsNamed setup.logger.level
          (parse_level-IsNamed setup.level _ (setup_from_env-level level_value format_value)),
    )
