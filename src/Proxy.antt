-- ===== src/Proxy.antt =====
-- proxy/proxy.go: the variables of the environment that name a proxy.
mod Values
mod Tests
use operator_lib.Common.{String, List, [], ◌∷◌, ◌++◌, Option, none, some}
use operator_lib.Common.Text.{to_lower}

-- `corev1.EnvVar`
pub record EnvVar : Type 0 where
  pub name : String
  pub value : String

-- `ProxyEnvNames`
abbrev pub proxy_env_names : List String
proxy_env_names = "HTTP_PROXY" ∷ "HTTPS_PROXY" ∷ "NO_PROXY" ∷ []

-- what an iteration appends, from what `os.LookupEnv` returns
unfoldable pub append_set : List EnvVar → String → Option String → List EnvVar
append_set env_vars s none = env_vars
append_set env_vars s (some value) =
    env_vars
    ++ (record { name = s; value = value } ∷ record { name = to_lower s; value = value } ∷ [])

unfoldable pub read_all : (env : String → Option String) → List EnvVar → List String → List EnvVar
read_all env env_vars [] = env_vars
read_all env env_vars (s ∷ names) = read_all env (append_set env_vars s (env s)) names

-- `ReadProxyVarsFromEnv`, where `env` is `os.LookupEnv`
unfoldable pub read_proxy_vars_from_env : (env : String → Option String) → List EnvVar
read_proxy_vars_from_env env = read_all env [] proxy_env_names
