-- ===== src/Logging/Capture.antt =====
-- The capture of log records for tests: internal/logtest/logtest.go. The JSON decoder is a parameter.
use rbln_k8s_dra_driver.Base.{
  ◌≡◌, refl, ap, ◌∙◌, Bool, false, List, [], ◌∷◌, Option, none, some, Result, ok, ◌>>=◌,
  if◌then◌else◌, ◌==◌,
}
use rbln_k8s_dra_driver.Go.Text.{Text, codes, text_eq, is_empty}
use rbln_k8s_dra_driver.Go.Errors.{Error}
use rbln_k8s_dra_driver.Go.Strings.{trim_space, to_lower}
use rbln_k8s_dra_driver.Logging.Setup.{Logger, new, bridge_klog, level_or_info}
use rbln_k8s_dra_driver.Logging.Level.{parse_level, level_of, klog_verbosity}
use rbln_k8s_dra_driver.Logging.Klog.{Klog, KeepsLoggers, Process, bridge, from_context}

module _ (k : Klog) where
  -- `Capture`, up to the end of the test: an error is `t.Fatalf`, and the logger writes to the
  -- buffer.
  unfoldable pub capture : Text → Process k → Result Error (Process k)
  capture level p = do
    logger ← new level (codes "json")
    ok (bridge k level (record p { default_logger = logger }))

  -- The function that `Capture` hands to `t.Cleanup`, with the default logger that it found.
  unfoldable pub clean_up : Logger → Process k → Process k
  clean_up old p =
      let dropped = bridge k (codes "info") p in
      record { default_logger = old; klog = k.clear_logger dropped.klog }

-- `strings.SplitSeq(s, "\n")`: the first line, and those that follow.
unfoldable pub split_lines : Text → Text × List Text
split_lines [] = ([], [])
split_lines (c ∷ s) =
    let (line, rest) = split_lines s in if c == 10 then ([], line ∷ rest) else (c ∷ line, rest)

module _ {A : Type 0} (unmarshal : Text → Result Error A) where
  -- The loop of `Lines`.
  unfoldable pub decode_lines : List Text → Result Error (List A)
  decode_lines [] = ok []
  decode_lines (line ∷ rest) =
      let later = decode_lines rest in
      if is_empty line then later else do m ← unmarshal line; ms ← later; ok (m ∷ ms)

  -- `Lines`
  unfoldable pub lines : Text → Result Error (List A)
  unfolding decode_lines split_lines
  lines buffer = let split = split_lines (trim_space buffer) in decode_lines (split.0 ∷ split.1)

unfoldable pub is_msg : Option Text → Text → Bool
is_msg none msg = false
is_msg (some t) msg = text_eq t msg

-- `Find`, where `msg_of` is the string under "msg".
unfoldable pub find : {A : Type 0} → (A → Option Text) → List A → Text → Option A
unfolding is_msg
find msg_of [] msg = none
find msg_of (m ∷ ms) msg =
    let rest = find msg_of ms msg in if is_msg (msg_of m) msg then some m else rest

bridge_klog-info : bridge_klog (codes "info") ≡ 0
unfolding bridge_klog level_or_info parse_level level_of klog_verbosity text_eq to_lower trim_space
bridge_klog-info = refl

module _ (k : Klog) (keeps : KeepsLoggers k) where
  -- Where klog behaves as documented: a level that can be read gives a capture whose logger has that
  -- level and is both the default and the one of a context without a logger, with the verbosity that
  -- fits it; the cleanup brings the default logger back and takes the verbosity to 0. At any other
  -- level nothing is captured.
  pub capture-clean_up :
      (level : Text) (p : Process k) (l : Logger)
      → new level (codes "json") ≡ ok l
      → (p' : Process k) × (capture k level p ≡ ok p')
        × (p'.default_logger ≡ l)
        × ((c : k.Context) → keeps.IsBare c → from_context k p' c ≡ (l, []))
        × (keeps.v p'.klog ≡ bridge_klog level)
        × ((clean_up k p.default_logger p').default_logger ≡ p.default_logger)
        × (keeps.v (clean_up k p.default_logger p').klog ≡ 0)
  unfolding capture clean_up bridge from_context
  capture-clean_up level p l read = (
    bridge k level (record p { default_logger = l }),
    rw read refl,
    refl,
    λ c bare. ap k.to_slog (keeps.set_v-from_context _ _ c) ∙ keeps.bare p.klog c l bare,
    keeps.v-set_v _ _,
    refl,
    keeps.v-clear_logger _ ∙ keeps.v-set_v _ _ ∙ bridge_klog-info,
  )
