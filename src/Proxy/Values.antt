-- ===== src/Proxy/Values.antt =====
-- What the variables that are read say.
use operator_lib.Common.{
  String, List, [], ◌∷◌, Option, none, some, if◌then◌else◌, ◌==◌, string_eq, ◌≡◌, refl, All,
}
use operator_lib.Common.Text.{to_lower}
use operator_lib.Proxy.{EnvVar, proxy_env_names, append_set, read_all, read_proxy_vars_from_env}

-- The value of the first variable of a name.
abbrev pub value_of : String → List EnvVar → Option String
value_of name [] = none
value_of name (v ∷ vs) = if v.name == name then some v.value else value_of name vs

abbrev appended : Option String → Option String → Option String → List EnvVar
appended a b c = append_set (append_set (append_set [] "HTTP_PROXY" a) "HTTPS_PROXY" b) "NO_PROXY" c

-- A list says of every standard name, in upper and in lower case, what the environment says of it.
abbrev pub Says : (env : String → Option String) → List EnvVar → Type 0
Says env vars =
    All (λ s. (value_of s vars ≡ env s) × (value_of (to_lower s) vars ≡ env s)) proxy_env_names

appended-values :
    (a b c : Option String)
    → ((value_of "HTTP_PROXY" (appended a b c) ≡ a) × (value_of "http_proxy" (appended a b c) ≡ a))
      × ((value_of "HTTPS_PROXY" (appended a b c) ≡ b)
          × (value_of "https_proxy" (appended a b c) ≡ b))
      × ((value_of "NO_PROXY" (appended a b c) ≡ c) × (value_of "no_proxy" (appended a b c) ≡ c))
unfolding append_set to_lower
appended-values none none none = ((refl, refl), (refl, refl), (refl, refl))
appended-values none none (some z) = ((refl, refl), (refl, refl), (refl, refl))
appended-values none (some y) none = ((refl, refl), (refl, refl), (refl, refl))
appended-values none (some y) (some z) = ((refl, refl), (refl, refl), (refl, refl))
appended-values (some x) none none = ((refl, refl), (refl, refl), (refl, refl))
appended-values (some x) none (some z) = ((refl, refl), (refl, refl), (refl, refl))
appended-values (some x) (some y) none = ((refl, refl), (refl, refl), (refl, refl))
appended-values (some x) (some y) (some z) = ((refl, refl), (refl, refl), (refl, refl))

-- Each of the three standard names, and its lower case form, is among the variables read exactly as
-- it is in the environment: with its value if it is set, and not at all if it is not.
pub read_proxy_vars_from_env-Says :
    (env : String → Option String) → Says env (read_proxy_vars_from_env env)
unfolding read_proxy_vars_from_env read_all append_set to_lower
read_proxy_vars_from_env-Says env =
    let (http, https, no_proxy) =
      appended-values (env "HTTP_PROXY") (env "HTTPS_PROXY") (env "NO_PROXY") in
    (http, (https, (no_proxy, tt)))
