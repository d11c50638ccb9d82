-- ===== src/Leader/Options.antt =====
-- `Config`, its defaults and the options that set it.
use operator_lib.Common.{List, [], ◌∷◌, none, some, Result, ok, err, if◌then◌else◌}
use operator_lib.Common.Int.{ℤ, pos, leℤ}
use operator_lib.Leader.Helpers.{Error, default_max_backoff_interval, Config}

-- `Option`, a change of the configuration that may fail
abbrev pub Opt : Type 0 → Type 0
Opt Client = Config Client → Result Error (Config Client)

abbrev pub default_interval : ℤ → ℤ
default_interval d = if leℤ d (pos 0) then default_max_backoff_interval else d

module _ {Client : Type 0} where
  -- `WithClient`
  unfoldable pub with_client : Client → Opt Client
  with_client cl c = ok (record c { client = some cl })

  unfoldable pub apply_options : List (Opt Client) → Opt Client
  apply_options [] c = ok c
  apply_options (opt ∷ opts) c = elim (opt c) [ ok c' ↦ apply_options opts c' | err e ↦ err e ]

  -- `setDefaults`, where `in_cluster` is what building a client from the environment gives
  unfoldable pub set_defaults : Result Error Client → Opt Client
  set_defaults in_cluster c =
      let interval : ℤ = default_interval c.max_backoff_interval in
      elim c.client [
        | some cl ↦ ok (record c { max_backoff_interval = interval })
        | none ↦ elim in_cluster [
          | ok cl ↦ ok (record { client = some cl; max_backoff_interval = interval })
          | err e ↦ err e
        ]
      ]

  unfoldable pub configure : Result Error Client → List (Opt Client) → Result Error (Config Client)
  configure in_cluster opts =
      elim (apply_options opts (record { client = none; max_backoff_interval = pos 0 })) [
        | ok c ↦ set_defaults in_cluster c
        | err e ↦ err e
      ]
