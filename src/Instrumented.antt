-- ===== src/Instrumented.antt =====
-- handler/instrumented_enqueue_object.go and handler/internal/metrics/metrics.go: the handler that
-- keeps a gauge with the time of creation of every object it hears of.
pub mod Gauges
mod Tests
use operator_lib.Common.{
  ℕ, ◌/◌, String, Bool, List, [], ◌∷◌, Option, none, some, Outcome, returned, panicked, bind,
}
use operator_lib.Common.Int.{ℤ, sub_ℕ}
use operator_lib.Objects.{NamespacedName, GroupVersionKind}
use operator_lib.Annotation.{Event, create, update, delete, generic, EventHandler}

abbrev pub Labels : Type 0
Labels = List (String × String)

-- `client.Object`, with what the metrics read of it. An instant is the number of nanoseconds since
-- the zero `time.Time`.
pub record Object : Type 0 where
  pub key : NamespacedName
  pub group_version_kind : GroupVersionKind
  pub creation_timestamp : ℕ

-- What is called of a `prometheus.GaugeVec`, over the states `S` of the registry of metrics.
-- `get_metric_with` returns nil, `none`, beside its error.
pub record GaugeVec (S Gauge : Type 0) : Type 0 where
  pub get_metric_with : Labels → S → S × Option Gauge
  pub set : Gauge → ℤ → S → S
  pub delete_labels : Labels → S → S

-- The labels that `ResourceCreatedAt` is declared with.
abbrev pub resource_created_at_labels : List String
resource_created_at_labels = "name" ∷ "namespace" ∷ "group" ∷ "version" ∷ "kind" ∷ []

-- `getResourceLabels`
unfoldable pub get_resource_labels : Object → Labels
get_resource_labels obj =
    ("name", obj.key.name)
    ∷ ("namespace", obj.key.namespace)
    ∷ ("group", obj.group_version_kind.group)
    ∷ ("version", obj.group_version_kind.version)
    ∷ ("kind", obj.group_version_kind.kind)
    ∷ []

-- `t.UTC().Unix()`. Its conversion to a `float64` is exact below 2^53 seconds.
abbrev pub unix : ℕ → ℤ
unix t = sub_ℕ (t / 1_000_000_000) 62_135_596_800

module _ {S Gauge : Type 0} (resource_created_at : GaugeVec S Gauge) where
  -- `m.Set(v)`, which panics on nil
  abbrev pub set_gauge : ℤ → S × Option Gauge → Outcome S
  set_gauge v (s, none) = panicked
  set_gauge v (s, some m) = returned (resource_created_at.set m v s)

  -- `setResourceMetric`
  unfoldable pub set_resource_metric : Option Object → S → Outcome S
  set_resource_metric none s = returned s
  set_resource_metric (some obj) s =
      set_gauge (unix obj.creation_timestamp)
        (resource_created_at.get_metric_with (get_resource_labels obj) s)

  -- `deleteResourceMetric`
  unfoldable pub delete_resource_metric : Option Object → S → S
  delete_resource_metric none s = s
  delete_resource_metric (some obj) s =
      resource_created_at.delete_labels (get_resource_labels obj) s

  -- The metrics that `Create`, `Update` and `Delete` write; `Generic` is that of the handler
  -- embedded, and writes none.
  unfoldable pub write_metrics : Event Object → S → Outcome S
  write_metrics (create obj) s = set_resource_metric obj s
  write_metrics (update old new) s = bind (set_resource_metric old s) (set_resource_metric new)
  write_metrics (delete obj) s = returned (delete_resource_metric obj s)
  write_metrics (generic obj) s = returned s

  -- The methods of `InstrumentedEnqueueRequestForObject`, from those of the handler embedded.
  unfoldable pub handle :
      {Q : Type 0} → EventHandler Object Q → Event Object → S × Q → Outcome (S × Q)
  handle enqueue evt (s, q) = bind (write_metrics evt s) (λ s'. returned (s', enqueue evt q))
