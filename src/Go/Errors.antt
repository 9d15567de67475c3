-- ===== src/Go/Errors.antt =====
-- Errors as values. `errors.Is` looks through the layers that `fmt.Errorf` adds with `%w`. Of a
-- message the fixed part is kept.
use rbln_k8s_dra_driver.Base.{ℕ, String, Bool, true, false}

-- What a call of the operating system fails with: `os.ErrNotExist`, or another error number.
pub data OsError : Type 0 where
  not_exist : OsError
  errno : ℕ → OsError

pub data Error : Type 0 where
  os : OsError → Error
  -- `errUnsupportedDevice`
  unsupported_device : Error
  -- `errors.New`, and `fmt.Errorf` with no `%w`
  message : String → Error
  -- `fmt.Errorf("…: %w", err)`
  wrap : String → Error → Error

abbrev pub is_not_exist_os : OsError → Bool
is_not_exist_os not_exist = true
is_not_exist_os (errno n) = false

-- `errors.Is(err, os.ErrNotExist)`
unfoldable pub is_not_exist : Error → Bool
is_not_exist (os e) = is_not_exist_os e
is_not_exist unsupported_device = false
is_not_exist (message m) = false
is_not_exist (wrap m e) = is_not_exist e

-- `errors.Is(err, errUnsupportedDevice)`
unfoldable pub is_unsupported : Error → Bool
is_unsupported (os e) = false
is_unsupported unsupported_device = true
is_unsupported (message m) = false
is_unsupported (wrap m e) = is_unsupported e
