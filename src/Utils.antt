-- ===== src/Utils.antt =====
-- internal/utils/utils.go: the namespace of the running operator.
mod Tests
use operator_lib.Common.{String, Bool, ◌≡◌, refl, if◌then◌else◌, true, false, Result, ok, err}
use operator_lib.Common.Text.{trim_space}

-- What can go wrong in `os.ReadFile`, as `os.IsNotExist` tells it apart.
pub data FileError : Type 0 where
  not_exist : FileError
  unreadable : String → FileError

abbrev pub is_not_exist : FileError → Bool
is_not_exist not_exist = true
is_not_exist (unreadable _) = false

-- `ErrNoNamespace`, or the error of the file read
pub data NamespaceError : Type 0 where
  no_namespace : NamespaceError
  read_failed : FileError → NamespaceError

-- `GetOperatorNamespace`, from what `readSAFile` returns
unfoldable pub get_operator_namespace : Result FileError String → Result NamespaceError String
get_operator_namespace (err e) = if is_not_exist e then err no_namespace else err (read_failed e)
get_operator_namespace (ok bytes) = ok (trim_space bytes)
