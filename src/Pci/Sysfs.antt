-- ===== src/Pci/Sysfs.antt =====
-- What the plugin asks of the file system under /sys/bus/pci/devices. The kernel answers: the
-- answers are a parameter of the model. A directory may list an entry that is gone when it is
-- looked at, so the answers need not agree with one another.
use rbln_k8s_dra_driver.Base.{List, Result}
use rbln_k8s_dra_driver.Go.Text.{Text}
use rbln_k8s_dra_driver.Go.FilePath.{FilePath}
use rbln_k8s_dra_driver.Go.Errors.{OsError}

pub record Sysfs : Type 0 where
  -- `os.ReadFile`
  pub read_file : FilePath → Result OsError Text
  -- `os.Readlink`
  pub read_link : FilePath → Result OsError Text
  -- `os.Stat` and `os.Lstat`; of the result only the error is used
  pub stat : FilePath → Result OsError (Unit {0})
  pub lstat : FilePath → Result OsError (Unit {0})
  -- the names of `os.ReadDir`
  pub read_dir : FilePath → Result OsError (List Text)
  -- `filepath.EvalSymlinks`
  pub eval_symlinks : FilePath → Result OsError FilePath
