-- ===== src/Logging/Lines.antt =====
-- `Lines` of internal/logtest/logtest.go reads what a handler of log/slog writes: one line of JSON
-- for each record.
use rbln_k8s_dra_driver.Base.{
  ◌≡◌, refl, ap, ◌∙◌, true, false, List, [], ◌∷◌, ◌++◌, Result, ok, arith, append_assoc,
}
use rbln_k8s_dra_driver.Go.Text.{Text, is_empty}
use rbln_k8s_dra_driver.Go.Errors.{Error}
use rbln_k8s_dra_driver.Go.Strings.{is_space, trim_left, trim_right, trim_space}
use rbln_k8s_dra_driver.Logging.Glog.{all_bytes}
use rbln_k8s_dra_driver.Logging.Glog.Bytes.{not_newline, all_bytes-append}
use rbln_k8s_dra_driver.Logging.Capture.{split_lines, decode_lines, lines}

-- A JSON object on one line: no newline stands in what its braces hold.
pub record IsObject (line : Text) : Type 0 where
  pub inside : Text
  pub braces : line ≡ b'{' ∷ (inside ++ (b'}' ∷ []))
  pub one_line : all_bytes not_newline inside ≡ true

-- What the handler has written: each line with a newline after it.
unfoldable pub written : List Text → Text
written [] = []
written (line ∷ rest) = line ++ (10 ∷ written rest)

is_empty-append : (s t : Text) → is_empty t ≡ false → is_empty (s ++ t) ≡ false
is_empty-append [] t n = n
is_empty-append (c ∷ s) t n = refl

trim_right-append :
    (s t : Text) → is_empty (trim_right t) ≡ false → trim_right (s ++ t) ≡ s ++ trim_right t
unfolding trim_right
trim_right-append [] t n = refl
trim_right-append (c ∷ s) t n =
    rw (trim_right-append s t n, is_empty-append s (trim_right t) n) refl

trim_right-newline :
    (s t : Text) → trim_right s ≡ t → is_empty t ≡ false → trim_right (10 ∷ s) ≡ 10 ∷ t
unfolding trim_right
trim_right-newline s t e n = rw (e, n) refl

split_lines-last : (line : Text) → all_bytes not_newline line ≡ true → split_lines line ≡ (line, [])
unfolding split_lines all_bytes
split_lines-last [] h = refl
split_lines-last (c ∷ line) h = ground (arith, split_lines-last line)

split_lines-append :
    (line rest : Text)
    → all_bytes not_newline line ≡ true
    → split_lines (line ++ (10 ∷ rest)) ≡ (line, (split_lines rest).0 ∷ (split_lines rest).1)
unfolding split_lines all_bytes
split_lines-append [] rest h = refl
split_lines-append (c ∷ line) rest h = ground (arith, split_lines-append line rest)

module _ {A : Type 0} (print : A → Text) (object : (r : A) → IsObject (print r)) where
  -- The lines without the last newline.
  abbrev chopped : A → List A → Text
  chopped r [] = print r
  chopped r (next ∷ rest) = print r ++ (10 ∷ chopped next rest)

  abbrev pub printed : List A → List Text
  printed [] = []
  printed (r ∷ rest) = print r ∷ printed rest

  print-not_empty : (r : A) → is_empty (print r) ≡ false
  print-not_empty r = rw (object r).braces refl

  print-one_line : (r : A) → all_bytes not_newline (print r) ≡ true
  unfolding all_bytes
  print-one_line r =
      rw
        (
          (object r).braces,
          all_bytes-append not_newline (object r).inside (b'}' ∷ []),
          (object r).one_line,
        )
        refl

  chopped-not_empty : (r : A) (rest : List A) → is_empty (chopped r rest) ≡ false
  chopped-not_empty r [] = print-not_empty r
  chopped-not_empty r (next ∷ rest) = rw (object r).braces refl

  trim_right-print : (r : A) → trim_right (print r ++ (10 ∷ [])) ≡ print r
  trim_right-print r =
      rw ((object r).braces, append_assoc (object r).inside (b'}' ∷ []) (10 ∷ []))
        (trim_right-append (b'{' ∷ (object r).inside) (b'}' ∷ (10 ∷ []))
            (unfold trim_right is_space in refl)
          ∙ (unfold trim_right is_space in refl))

  trim_right-written :
      (r : A) (rest : List A) → trim_right (written (printed (r ∷ rest))) ≡ chopped r rest
  unfolding written
  trim_right-written r [] = trim_right-print r
  trim_right-written r (next ∷ rest) =
      let end =
        trim_right-newline _ (chopped next rest) (trim_right-written next rest)
          (chopped-not_empty next rest) in
      trim_right-append (print r) _ (ap is_empty end) ∙ ap (λ (t : Text). print r ++ t) end

  trim_left-written :
      (r : A) (later : List Text)
      → trim_left (written (print r ∷ later)) ≡ written (print r ∷ later)
  unfolding written trim_left is_space
  trim_left-written r later = rw (object r).braces refl

  trim_space-written :
      (r : A) (rest : List A) → trim_space (written (printed (r ∷ rest))) ≡ chopped r rest
  unfolding trim_space
  trim_space-written r rest =
      ap trim_right (trim_left-written r (printed rest)) ∙ trim_right-written r rest

  split_lines-chopped :
      (r : A) (rest : List A) → split_lines (chopped r rest) ≡ (print r, printed rest)
  split_lines-chopped r [] = split_lines-last (print r) (print-one_line r)
  split_lines-chopped r (next ∷ rest) =
      split_lines-append (print r) (chopped next rest) (print-one_line r)
      ∙ rw (split_lines-chopped next rest) refl

  module _ (unmarshal : Text → Result Error A) (read : (r : A) → unmarshal (print r) ≡ ok r) where
    decode_lines-printed :
        (records : List A) → decode_lines unmarshal (printed records) ≡ ok records
    unfolding decode_lines
    decode_lines-printed [] = refl
    decode_lines-printed (r ∷ rest) = rw (print-not_empty r, read r, decode_lines-printed rest) refl

    -- Where a record is printed as a JSON object on one line and is decoded from it: `Lines` reads
    -- any sequence of printed records, each with a newline after it, as these records in their order.
    pub lines-written :
        (records : List A) → lines unmarshal (written (printed records)) ≡ ok records
    unfolding lines
    lines-written [] =
        unfold written trim_space trim_left trim_right split_lines decode_lines in refl
    lines-written (r ∷ rest) =
        rw (trim_space-written r rest, split_lines-chopped r rest) (decode_lines-printed (r ∷ rest))
