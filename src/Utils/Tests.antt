-- ===== src/Utils/Tests.antt =====
-- Runs of `GetOperatorNamespace`, those of internal/utils/utils_test.go among them.
use operator_lib.Common.{◌≡◌, refl, ok, err}
use operator_lib.Common.Text.{trim_space}
use operator_lib.Utils.{not_exist, no_namespace, get_operator_namespace}

reads :
    (get_operator_namespace (ok "testnamespace\n") ≡ ok "testnamespace")
    × (get_operator_namespace (err not_exist) ≡ err no_namespace)
unfolding get_operator_namespace trim_space
reads = (refl, refl)
