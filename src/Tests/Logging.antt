-- ===== src/Tests/Logging.antt =====
-- The logger, its attributes, and the relay of glog's records.
use rbln_k8s_dra_driver.Base.{
  ℕ, suc, ◌≤◌, ◌≡◌, refl, true, leb, [], ◌∷◌, ◌++◌, ok, err, ℤ, negsuc, leb_ℤ, if◌then◌else◌,
}
use rbln_k8s_dra_driver.Go.Text.{Text, codes}
use rbln_k8s_dra_driver.Go.Errors.{Error}
use rbln_k8s_dra_driver.Logging.Level.{level_info, parse_level, parse_format}
use rbln_k8s_dra_driver.Logging.Setup.{
  new, setup_from_env, bridge_klog, setup_from_env-new, bridge_klog-setup_from_env,
}
use rbln_k8s_dra_driver.Logging.Glog.{relay_stderr, severity_level, is_number, all_bytes, in_class}
use rbln_k8s_dra_driver.Logging.Glog.Bytes.{fits}
use rbln_k8s_dra_driver.Logging.Glog.Laws.{
  Printed, IsPrinted, printed_line, record_of, relay_stderr-printed_line,
}

setup_from_env-new_example :
    let setup = setup_from_env (codes " DEBUG ") (codes "yaml") in
    (new setup.level setup.format ≡ ok setup.logger)
    × ((l : ℤ) → parse_level (codes " DEBUG ") ≡ ok l → setup.logger.level ≡ l)
    × ((e : Error) → parse_level (codes " DEBUG ") ≡ err e → setup.logger.level ≡ level_info)
    × ((f : Text) → parse_format (codes "yaml") ≡ ok f → setup.format ≡ f)
    × ((e : Error) → parse_format (codes "yaml") ≡ err e → setup.format ≡ codes "json")
setup_from_env-new_example = setup_from_env-new (codes " DEBUG ") (codes "yaml")

bridge_klog-setup_from_env_example :
    let setup = setup_from_env (codes "trace") (codes "") in
    ((n : ℕ) → leb (suc n) (bridge_klog setup.level) ≡ leb_ℤ setup.logger.level (negsuc n))
    × (bridge_klog setup.level ≤ 8)
bridge_klog-setup_from_env_example = bridge_klog-setup_from_env (codes "trace") (codes "")

abbrev warning_line : Printed
warning_line = record {
  severity = b'W';
  stamp = codes "1126 17:01:02.000123 ";
  pad = codes "   ";
  thread = codes "42";
  file = codes "rsd]group.go";
  line = codes "81";
  message = codes "no group: a] b";
}

warning_line-IsPrinted : IsPrinted warning_line
unfolding is_number all_bytes in_class fits
warning_line-IsPrinted = record {
  severity = refl;
  stamp = refl;
  pad = refl;
  thread = refl;
  file_nonempty = refl;
  file = refl;
  line = refl;
  message = refl;
}

relay_stderr-printed_line_example :
    relay_stderr level_info true (printed_line warning_line ++ (10 ∷ codes "panic"))
    ≡ (if leb_ℤ level_info (severity_level b'W') then record_of warning_line true ∷ [] else [])
      ++ relay_stderr level_info true (codes "panic")
relay_stderr-printed_line_example =
    relay_stderr-printed_line warning_line warning_line-IsPrinted level_info true (codes "panic")
