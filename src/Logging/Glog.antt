-- ===== src/Logging/Glog.antt =====
-- The relay of glog's records: pkg/logging/glog.go.
pub mod Bytes
pub mod Laws
use rbln_k8s_dra_driver.Base.{
  ℕ, Bool, true, false, ◌&&◌, ◌||◌, not, ◌==◌, List, [], ◌∷◌, ◌++◌, Result, ok, err, Option, none,
  some, if◌then◌else◌, ℤ, leb_ℤ,
}
use rbln_k8s_dra_driver.Go.Text.{Text, codes, is_empty}
use rbln_k8s_dra_driver.Go.Strings.{cut_last}
use rbln_k8s_dra_driver.Go.Number.{is_digit}
use rbln_k8s_dra_driver.Go.Errors.{OsError}
use rbln_k8s_dra_driver.Logging.Level.{
  level_debug, level_info, level_warn, level_error, parse_level,
}
use rbln_k8s_dra_driver.Logging.Setup.{level_or_info}

-- A class of bytes in `glogHeader`: `\d`, or the byte itself.
pub data Class : Type 0 where
  any_digit : Class
  only : ℕ → Class

unfoldable pub in_class : Class → ℕ → Bool
in_class any_digit c = is_digit c
in_class (only b) c = b == c

-- The rest of the text after one byte of each class.
unfoldable pub after_classes : List Class → Text → Option Text
unfolding in_class
after_classes [] s = some s
after_classes (k ∷ classes) [] = none
after_classes (k ∷ classes) (c ∷ s) =
    let rest = after_classes classes s in if in_class k c then rest else none

-- `\d{4} \d{2}:\d{2}:\d{2}\.\d{6} `, up to the first of the blanks before the thread id.
abbrev pub stamp_classes : List Class
stamp_classes =
    any_digit
    ∷ any_digit
    ∷ any_digit
    ∷ any_digit
    ∷ only b' '
    ∷ any_digit
    ∷ any_digit
    ∷ only b':'
    ∷ any_digit
    ∷ any_digit
    ∷ only b':'
    ∷ any_digit
    ∷ any_digit
    ∷ only b'.'
    ∷ any_digit
    ∷ any_digit
    ∷ any_digit
    ∷ any_digit
    ∷ any_digit
    ∷ any_digit
    ∷ only b' '
    ∷ []

-- The longest part in front whose bytes pass the test, and the rest.
unfoldable pub span : (ℕ → Bool) → Text → Text × Text
span test [] = ([], [])
span test (c ∷ s) =
    let (front, rest) = span test s in if test c then (c ∷ front, rest) else ([], c ∷ s)

abbrev pub is_blank : ℕ → Bool
is_blank c = c == b' '

-- `\S`: all but tab, newline, form feed, carriage return and blank.
abbrev pub is_non_space : ℕ → Bool
is_non_space c = not (c == 9 || c == 10 || c == 12 || c == 13 || c == 32)

unfoldable pub all_bytes : (ℕ → Bool) → Text → Bool
all_bytes test [] = true
all_bytes test (c ∷ s) = test c && all_bytes test s

unfoldable pub is_number : Text → Bool
unfolding all_bytes
is_number s = not (is_empty s) && all_bytes is_digit s

-- `\S+:\d+`, on a text without spaces.
unfoldable pub is_caller : Option (Text × Text) → Bool
unfolding is_number
is_caller none = false
is_caller (some (file, line)) = not (is_empty file) && is_number line

-- The text before a final `]`.
unfoldable pub before_bracket : Option (Text × Text) → Option Text
before_bracket (some (caller, [])) = some caller
before_bracket other = none

-- The three submatches of `glogHeader`.
pub record Header : Type 0 where
  pub severity : ℕ
  pub caller : Text
  pub message : Text

-- `(\S+:\d+)\] (.*)$`, by the text up to the first space and the rest. As `\S` excludes the blank
-- after the bracket, the greedy caller ends at the last bracket before the first space.
unfoldable pub match_message : ℕ → Option Text → Text → Option Header
unfolding is_caller
match_message severity none rest = none
match_message severity (some caller) [] = none
match_message severity (some caller) (c ∷ message) =
    if is_caller (cut_last b':' caller) && (c == b' ' && all_bytes (λ b. not (b == 10)) message)
    then some (record { severity = severity; caller = caller; message = message })
    else none

unfoldable pub match_caller : ℕ → Text → Option Header
unfolding match_message before_bracket
match_caller severity s =
    let (word, rest) = span is_non_space s in
    match_message severity (before_bracket (cut_last b']' word)) rest

-- `\d+ ` and what follows it, by the digits and the rest.
unfoldable pub match_thread : ℕ → Text → Text → Option Header
unfolding match_caller
match_thread severity [] rest = none
match_thread severity (d ∷ digits) [] = none
match_thread severity (d ∷ digits) (c ∷ rest) =
    let found = match_caller severity rest in if c == b' ' then found else none

unfoldable pub match_stamp : ℕ → Option Text → Option Header
unfolding match_thread span
match_stamp severity none = none
match_stamp severity (some rest) =
    let (digits, more) = span is_digit (span is_blank rest).1 in match_thread severity digits more

abbrev pub is_severity : ℕ → Bool
is_severity c = c == b'I' || c == b'W' || c == b'E' || c == b'F'

-- `glogHeader.FindStringSubmatch`
unfoldable pub glog_header : Text → Option Header
unfolding match_stamp after_classes
glog_header [] = none
glog_header (c ∷ s) =
    let found = match_stamp c (after_classes stamp_classes s) in
    if is_severity c then found else none

-- A record that is given to the handler, with its attributes.
pub record Record : Type 0 where
  pub level : ℤ
  pub message : Text
  pub logger : Text
  pub caller : Option Text

abbrev pub severity_level : ℕ → ℤ
severity_level c =
    if c == b'W' then level_warn else if c == b'E' || c == b'F' then level_error else level_info

unfoldable pub stderr_record : Text → Bool → Option Header → Record
stderr_record line with_caller none = record {
  level = level_info;
  message = line;
  logger = codes "stderr";
  caller = none;
}
stderr_record line with_caller (some m) = record {
  level = severity_level m.severity;
  message = m.message;
  logger = codes "glog";
  caller = if with_caller then some m.caller else none;
}

-- `emitStderrLine`: what the default logger of the given level is handed.
unfoldable pub emit_stderr_line : ℤ → Bool → Text → List Record
unfolding stderr_record
emit_stderr_line gate with_caller line =
    let entry = stderr_record line with_caller (glog_header line) in
    if leb_ℤ gate entry.level then entry ∷ [] else []

-- `strings.TrimRight(line, "\r\n")`
unfoldable pub trim_newlines : Text → Text
trim_newlines [] = []
trim_newlines (c ∷ s) =
    let rest = trim_newlines s in if is_empty rest && (c == 10 || c == 13) then [] else c ∷ rest

-- The results of `ReadString('\n')` up to the one with the error at the end: the first of them, and
-- the others.
unfoldable pub read_strings : Text → Text × List Text
read_strings [] = ([], [])
read_strings (c ∷ s) =
    let (line, lines) = read_strings s in
    if c == 10 then (c ∷ [], line ∷ lines) else (c ∷ line, lines)

unfoldable pub relay_line : ℤ → Bool → Text → List Record
unfolding emit_stderr_line trim_newlines
relay_line gate with_caller read =
    let line = trim_newlines read in
    if is_empty line then [] else emit_stderr_line gate with_caller line

unfoldable pub relay_lines : ℤ → Bool → List Text → List Record
unfolding relay_line
relay_lines gate with_caller [] = []
relay_lines gate with_caller (line ∷ lines) =
    relay_line gate with_caller line ++ relay_lines gate with_caller lines

-- `relayStderr`, on all that is written before the end of the stream.
unfoldable pub relay_stderr : ℤ → Bool → Text → List Record
unfolding relay_lines read_strings
relay_stderr gate with_caller stream =
    let (line, lines) = read_strings stream in relay_lines gate with_caller (line ∷ lines)

-- `BridgeGlog`, by whether glog is linked and what `os.Pipe` gave: whether the relay of standard
-- error that it starts adds callers, if it starts one.
unfoldable pub start_relay : Text → Result OsError (Unit {0}) → Option Bool
unfolding level_or_info
start_relay level (err e) = none
start_relay level (ok u) = some (leb_ℤ (level_or_info (parse_level level)) level_debug)

unfoldable pub bridge_glog : Bool → Result OsError (Unit {0}) → Text → Option Bool
unfolding start_relay
bridge_glog linked pipe level = if linked then start_relay level pipe else none
