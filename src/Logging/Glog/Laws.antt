-- ===== src/Logging/Glog/Laws.antt =====
-- A line that glog has printed is relayed as the record that it was printed for.
use rbln_k8s_dra_driver.Base.{
  ℕ, ◌≡◌, refl, Bool, true, false, [], ◌∷◌, ◌++◌, none, some, if◌then◌else◌, arith, ℤ, leb_ℤ,
}
use rbln_k8s_dra_driver.Go.Text.{Text, codes, is_empty}
use rbln_k8s_dra_driver.Go.Strings.{cut_last}
use rbln_k8s_dra_driver.Go.Number.{is_digit}
use rbln_k8s_dra_driver.Logging.Glog.{
  stamp_classes, span, is_blank, is_non_space, all_bytes, is_number, is_caller, before_bracket,
  match_message, match_caller, match_thread, match_stamp, is_severity, glog_header, severity_level,
  emit_stderr_line, relay_line, relay_lines, relay_stderr, stderr_record, Header, Record,
}
use rbln_k8s_dra_driver.Logging.Glog.Bytes.{
  fits, after_classes-append, all_bytes-append, span-append, all_bytes_weaken, differs,
  cut_last-append, not_newline, trim_newlines-append, read_strings-append, fits-not_newline,
}

-- What glog prints: "Lmmdd hh:mm:ss.uuuuuu threadid file:line] message". The stamp has the first of
-- the blanks before the thread id, `pad` the others.
pub record Printed : Type 0 where
  pub severity : ℕ
  pub stamp : Text
  pub pad : Text
  pub thread : Text
  pub file : Text
  pub line : Text
  pub message : Text

abbrev pub caller_of : Printed → Text
caller_of l = l.file ++ (b':' ∷ l.line)

abbrev pub after_thread : Printed → Text
after_thread l = (caller_of l ++ (b']' ∷ [])) ++ (b' ' ∷ l.message)

unfoldable pub printed_line : Printed → Text
printed_line l = l.severity ∷ (l.stamp ++ (l.pad ++ (l.thread ++ (b' ' ∷ after_thread l))))

-- The file has no space in its name, and the message is one line.
pub record IsPrinted (l : Printed) : Type 0 where
  pub severity : is_severity l.severity ≡ true
  pub stamp : fits stamp_classes l.stamp ≡ true
  pub pad : all_bytes is_blank l.pad ≡ true
  pub thread : is_number l.thread ≡ true
  pub file_nonempty : is_empty l.file ≡ false
  pub file : all_bytes is_non_space l.file ≡ true
  pub line : is_number l.line ≡ true
  pub message : all_bytes not_newline l.message ≡ true

digits_weaken :
    (other : ℕ → Bool) (s : Text)
    → ((c : ℕ) → is_digit c ≡ true → other c ≡ true)
    → is_number s ≡ true
    → all_bytes other s ≡ true
unfolding is_number
digits_weaken other s imp h = all_bytes_weaken is_digit other s imp (ground arith)

-- The record that a printed line stands for.
abbrev pub record_of : Printed → Bool → Record
record_of l with_caller = record {
  level = severity_level l.severity;
  message = l.message;
  logger = codes "glog";
  caller = if with_caller then some (caller_of l) else none;
}

module _ (l : Printed) (p : IsPrinted l) where
  word_non_space : all_bytes is_non_space (caller_of l ++ (b']' ∷ [])) ≡ true
  unfolding all_bytes
  word_non_space = ground (
    arith,
    all_bytes-append is_non_space (caller_of l) (b']' ∷ []),
    all_bytes-append is_non_space l.file (b':' ∷ l.line),
    p.file,
    digits_weaken is_non_space l.line (λ c h. ground arith) p.line,
  )

  caller_cut : cut_last b':' (caller_of l) ≡ some (l.file, l.line)
  caller_cut =
      cut_last-append b':' l.file l.line
        (digits_weaken (differs b':') l.line (λ c h. ground arith) p.line)

  header : Header
  header = record { severity = l.severity; caller = caller_of l; message = l.message }

  match_message_lem : match_message l.severity (some (caller_of l)) (b' ' ∷ l.message) ≡ some header
  unfolding match_message header is_caller
  match_message_lem = ground (
    arith,
    caller_cut,
    p.file_nonempty,
    p.line,
    all_bytes_weaken not_newline (differs 10) l.message (λ c h. ground arith) p.message,
  )

  match_caller_lem : match_caller l.severity (after_thread l) ≡ some header
  unfolding match_caller before_bracket
  match_caller_lem =
      rw
        (
          span-append is_non_space (caller_of l ++ (b']' ∷ [])) b' ' l.message word_non_space refl,
          cut_last-append b']' (caller_of l) [] refl,
        )
        match_message_lem

  match_thread_lem :
      (thread : Text)
      → is_number thread ≡ true
      → match_thread l.severity thread (b' ' ∷ after_thread l) ≡ some header
  unfolding match_thread is_number
  match_thread_lem [] h = absurd (ground arith)
  match_thread_lem (d ∷ digits) h = match_caller_lem

  skip_pad :
      (thread : Text)
      → is_number thread ≡ true
      → (span is_blank (l.pad ++ (thread ++ (b' ' ∷ after_thread l)))).1
        ≡ thread ++ (b' ' ∷ after_thread l)
  unfolding is_number all_bytes
  skip_pad [] h = absurd (ground arith)
  skip_pad (d ∷ digits) h =
      rw (span-append is_blank l.pad d (digits ++ (b' ' ∷ after_thread l)) p.pad (ground arith))
        refl

  -- A printed line is matched, and the submatches are its severity, its caller and its message.
  glog_header-printed_line : glog_header (printed_line l) ≡ some header
  unfolding glog_header match_stamp printed_line
  glog_header-printed_line =
      rw
        (
          after_classes-append stamp_classes l.stamp
              (l.pad ++ (l.thread ++ (b' ' ∷ after_thread l))) p.stamp,
          skip_pad l.thread p.thread,
          span-append is_digit l.thread b' ' (after_thread l)
              (digits_weaken is_digit l.thread (λ c h. h) p.thread) refl,
          match_thread_lem l.thread p.thread,
          p.severity,
        )
        refl

  printed_line-not_newline : all_bytes not_newline (printed_line l) ≡ true
  unfolding printed_line all_bytes
  printed_line-not_newline = ground (
    arith,
    p.severity,
    all_bytes-append not_newline l.stamp (l.pad ++ (l.thread ++ (b' ' ∷ after_thread l))),
    fits-not_newline stamp_classes l.stamp refl p.stamp,
    all_bytes-append not_newline l.pad (l.thread ++ (b' ' ∷ after_thread l)),
    all_bytes_weaken is_blank not_newline l.pad (λ c h. ground arith) p.pad,
    all_bytes-append not_newline l.thread (b' ' ∷ after_thread l),
    digits_weaken not_newline l.thread (λ c h. ground arith) p.thread,
    all_bytes-append not_newline (caller_of l ++ (b']' ∷ [])) (b' ' ∷ l.message),
    all_bytes_weaken is_non_space not_newline (caller_of l ++ (b']' ∷ [])) (λ c h. ground arith)
        word_non_space,
    p.message,
  )

  -- A line that glog prints is relayed as one record of its severity's level, with its message,
  -- and with its caller if callers are on, provided that the logger's level lets it pass, and as none
  -- otherwise; what follows the line in the stream is relayed as if it stood alone.
  pub relay_stderr-printed_line :
      (gate : ℤ) (with_caller : Bool) (rest : Text)
      → relay_stderr gate with_caller (printed_line l ++ (10 ∷ rest))
        ≡ (if leb_ℤ gate (severity_level l.severity) then record_of l with_caller ∷ [] else [])
          ++ relay_stderr gate with_caller rest
  unfolding relay_stderr relay_lines relay_line emit_stderr_line stderr_record header
  relay_stderr-printed_line gate with_caller rest =
      rw
        (
          read_strings-append (printed_line l) rest printed_line-not_newline,
          trim_newlines-append (printed_line l) printed_line-not_newline,
          glog_header-printed_line,
        )
        (unfold printed_line in refl)
