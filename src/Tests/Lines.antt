-- ===== src/Tests/Lines.antt =====
-- Captured records of two kinds.
use rbln_k8s_dra_driver.Base.{◌≡◌, refl, Bool, true, false, [], ◌∷◌, Result, ok}
use rbln_k8s_dra_driver.Go.Text.{Text, codes, text_eq}
use rbln_k8s_dra_driver.Go.Errors.{Error}
use rbln_k8s_dra_driver.Logging.Glog.{all_bytes}
use rbln_k8s_dra_driver.Logging.Capture.{lines}
use rbln_k8s_dra_driver.Logging.Lines.{IsObject, written, printed, lines-written}

abbrev print : Bool → Text
print true = codes "{1}"
print false = codes "{ }"

print-IsObject : (r : Bool) → IsObject (print r)
unfolding all_bytes
print-IsObject true = record { inside = codes "1"; braces = refl; one_line = refl }
print-IsObject false = record { inside = codes " "; braces = refl; one_line = refl }

abbrev decode : Text → Result Error Bool
decode line = ok (text_eq line (codes "{1}"))

decode-print : (r : Bool) → decode (print r) ≡ ok r
unfolding text_eq
decode-print true = refl
decode-print false = refl

lines-written_example :
    lines decode (written (printed print print-IsObject (true ∷ false ∷ true ∷ [])))
    ≡ ok (true ∷ false ∷ true ∷ [])
lines-written_example =
    lines-written print print-IsObject decode decode-print (true ∷ false ∷ true ∷ [])
