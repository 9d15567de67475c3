-- ===== src/Logging/Attrs.antt =====
-- The rewriting of the attributes of a record: `replaceAttr` and `trimPath` of
-- pkg/logging/logging.go. The formatting of times is a parameter.
use rbln_k8s_dra_driver.Base.{
  ℕ, zero, suc, List, [], ◌∷◌, ◌++◌, Option, none, some, if◌then◌else◌, ℤ, pos,
}
use rbln_k8s_dra_driver.Go.Text.{Text, codes, text_eq}
use rbln_k8s_dra_driver.Go.Strings.{cut_last}
use rbln_k8s_dra_driver.Go.FilePath.{slash}
use rbln_k8s_dra_driver.Go.Number.{format_int}
use rbln_k8s_dra_driver.Logging.Level.{level_name, klog_verbosity}

unfoldable pub last_two : Text → Text → Option (Text × Text) → Text
last_two file name none = file
last_two file name (some (root, parent)) = parent ++ (slash ∷ name)

unfoldable pub last_segments : Text → Option (Text × Text) → Text
unfolding last_two
last_segments file none = file
last_segments file (some (dir, name)) = last_two file name (cut_last slash dir)

-- `trimPath`
unfoldable pub trim_path : Text → Text
unfolding last_segments
trim_path file = last_segments file (cut_last slash file)

-- `slog.Value`: `source_value` is a `*slog.Source` with its file and line. A group holds attributes,
-- and `other_value` stands for the kinds that are never read.
mutual
  pub data Value (Time : Type 0) : Type 0 where
    time_value : Time → Value Time
    level_value : ℤ → Value Time
    source_value : Text → ℤ → Value Time
    string_value : Text → Value Time
    int_value : ℤ → Value Time
    group_value : Attrs Time → Value Time
    nil_value : Value Time
    other_value : Text → Value Time

  pub data Attrs (Time : Type 0) : Type 0 where
    no_attrs : Attrs Time
    attr : Text → Value Time → Attrs Time → Attrs Time

-- `slog.Attr`
abbrev pub Attr : Type 0 → Type 0
Attr Time = Text × Value Time

-- The keys of log/slog: TimeKey, LevelKey and SourceKey.
abbrev pub time_key : Text
time_key = codes "time"

abbrev pub level_key : Text
level_key = codes "level"

abbrev pub source_key : Text
source_key = codes "source"

-- The level by its name, with the depth of klog beside it if there is one.
unfoldable pub level_attr : {Time : Type 0} → ℕ → Text → Attr Time
level_attr zero name = (level_key, string_value name)
level_attr (suc v) name = (
  [],
  group_value
      (attr level_key (string_value name) (attr (codes "v") (int_value (pos (suc v))) no_attrs)),
)

unfoldable pub source_attr : {Time : Type 0} → Text → ℤ → Attr Time
source_attr [] line = ([], nil_value)
source_attr (c ∷ file) line =
    (codes "caller", string_value (trim_path (c ∷ file) ++ (b':' ∷ format_int line)))

-- The three cases of the switch; a value of another kind passes.
unfoldable pub replace_level : {Time : Type 0} → Attr Time → Attr Time
unfolding level_attr
replace_level (key, level_value l) = level_attr (klog_verbosity l) (level_name l)
replace_level a = a

unfoldable pub replace_source : {Time : Type 0} → Attr Time → Attr Time
unfolding source_attr
replace_source (key, source_value file line) = source_attr file line
replace_source a = a

module _ {Time : Type 0} (rfc3339_nano : Time → Text) where
  unfoldable pub replace_time : Attr Time → Attr Time
  replace_time (key, time_value t) = (codes "ts", string_value (rfc3339_nano t))
  replace_time a = a

  unfoldable pub replace_top : Attr Time → Attr Time
  unfolding replace_time replace_level replace_source
  replace_top a =
      if text_eq a.0 time_key
      then replace_time a
      else if text_eq a.0 level_key
      then replace_level a
      else if text_eq a.0 source_key
      then replace_source a
      else a

  -- `replaceAttr`
  unfoldable pub replace_attr : List Text → Attr Time → Attr Time
  unfolding replace_top
  replace_attr [] a = replace_top a
  replace_attr (group ∷ groups) a = a
