-- ===== src/Logging/Level.antt =====
-- The levels and formats of pkg/logging/logging.go. A `slog.Level` is an integer.
use rbln_k8s_dra_driver.Base.{
  ℕ, suc, ◌≤◌, ◌≡◌, refl, ◌||◌, Result, ok, err, if◌then◌else◌, ℤ, pos, negsuc, leb_ℤ, arith, ◌⊎◌,
  inl, inr,
}
use rbln_k8s_dra_driver.Go.Text.{Text, codes, text_eq}
use rbln_k8s_dra_driver.Go.Strings.{to_lower, trim_space}
use rbln_k8s_dra_driver.Go.Errors.{Error, message}

-- `LevelTrace`, and the levels of log/slog.
abbrev pub level_trace : ℤ
level_trace = negsuc 7

abbrev pub level_debug : ℤ
level_debug = negsuc 3

abbrev pub level_info : ℤ
level_info = pos 0

abbrev pub level_warn : ℤ
level_warn = pos 4

abbrev pub level_error : ℤ
level_error = pos 8

-- The switch of `parseLevel`.
unfoldable pub level_of : Text → Result Error ℤ
level_of s =
    if text_eq s (codes "") || text_eq s (codes "info")
    then ok level_info
    else if text_eq s (codes "error")
    then ok level_error
    else if text_eq s (codes "warning") || text_eq s (codes "warn")
    then ok level_warn
    else if text_eq s (codes "debug")
    then ok level_debug
    else if text_eq s (codes "trace")
    then ok level_trace
    else err (message "unknown log level")

-- `parseLevel`
unfoldable pub parse_level : Text → Result Error ℤ
unfolding level_of
parse_level s = level_of (to_lower (trim_space s))

-- The switch of `parseFormat`.
unfoldable pub format_of : Text → Result Error Text
format_of s =
    if text_eq s (codes "") || text_eq s (codes "json")
    then ok (codes "json")
    else if text_eq s (codes "text")
    then ok (codes "text")
    else err (message "unknown log format")

-- `parseFormat`
unfoldable pub parse_format : Text → Result Error Text
unfolding format_of
parse_format s = format_of (to_lower (trim_space s))

-- `levelName`
unfoldable pub level_name : ℤ → Text
level_name l =
    if leb_ℤ level_error l
    then codes "error"
    else if leb_ℤ level_warn l
    then codes "warn"
    else if leb_ℤ level_info l
    then codes "info"
    else if leb_ℤ level_debug l
    then codes "debug"
    else codes "trace"

-- `klogVerbosity`: `max(0, -lvl)`
unfoldable pub klog_verbosity : ℤ → ℕ
klog_verbosity (pos n) = 0
klog_verbosity (negsuc n) = suc n

-- The levels that have a name of their own.
abbrev pub IsNamed : ℤ → Type 0
IsNamed l =
    (l ≡ level_info)
    ⊎ ((l ≡ level_error) ⊎ ((l ≡ level_warn) ⊎ ((l ≡ level_debug) ⊎ (l ≡ level_trace))))

pub parse_level-IsNamed : (s : Text) (l : ℤ) → parse_level s ≡ ok l → IsNamed l
unfolding parse_level
parse_level-IsNamed s l h = ground arith

pub parse_level-level_name_named : (l : ℤ) → IsNamed l → parse_level (level_name l) ≡ ok l
unfolding parse_level level_name to_lower trim_space text_eq
parse_level-level_name_named l (inl e) = rw e refl
parse_level-level_name_named l (inr (inl e)) = rw e refl
parse_level-level_name_named l (inr (inr (inl e))) = rw e refl
parse_level-level_name_named l (inr (inr (inr (inl e)))) = rw e refl
parse_level-level_name_named l (inr (inr (inr (inr e)))) = rw e refl

abbrev pub IsFormat : Text → Type 0
IsFormat f = (f ≡ codes "json") ⊎ (f ≡ codes "text")

pub parse_format-IsFormat : (s f : Text) → parse_format s ≡ ok f → IsFormat f
unfolding parse_format
parse_format-IsFormat s f h = ground arith

pub parse_format_named : (f : Text) → IsFormat f → parse_format f ≡ ok f
unfolding parse_format to_lower trim_space text_eq
parse_format_named f (inl e) = rw e refl
parse_format_named f (inr e) = rw e refl

-- A named level is no deeper than the trace floor.
pub klog_verbosity-IsNamed : (l : ℤ) → IsNamed l → klog_verbosity l ≤ 8
unfolding klog_verbosity
klog_verbosity-IsNamed l h = ground arith
