-- ===== src/Proxy/Tests.antt =====
-- An environment with one of the three variables.
use operator_lib.Common.{
  String, [], ◌∷◌, Option, none, some, if◌then◌else◌, ◌==◌, string_eq, ◌≡◌, refl,
}
use operator_lib.Common.Text.{to_lower}
use operator_lib.Proxy.{append_set, read_all, read_proxy_vars_from_env}
use operator_lib.Proxy.Values.{Says, read_proxy_vars_from_env-Says}

abbrev only_https : String → Option String
only_https name = if name == "HTTPS_PROXY" then some "proxy:1" else none

reads :
    read_proxy_vars_from_env only_https
    ≡ record { name = "HTTPS_PROXY"; value = "proxy:1" }
      ∷ record { name = "https_proxy"; value = "proxy:1" }
      ∷ []
unfolding read_proxy_vars_from_env read_all append_set to_lower
reads = refl

read_proxy_vars_from_env-Says_example : Says only_https (read_proxy_vars_from_env only_https)
read_proxy_vars_from_env-Says_example = read_proxy_vars_from_env-Says only_https
