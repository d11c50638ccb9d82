-- ===== src/Instrumented/Gauges.antt =====
-- What the gauges say after any number of events.
use operator_lib.Common.{
  ◌≡◌, ◌≢◌, ◌↔◌, refl, sym, ap, ◌∙◌, String, Bool, true, false, ◌&&◌, List, [], ◌∷◌, map, Option,
  none, some, Outcome, returned, bind, if◌then◌else◌, ◌==◌, string_eq, Bool-cases, inl, inr, arith,
  Eq,
}
use operator_lib.Common.Int.{ℤ}
use mathlib.Core.Bool.{false≢true}
use operator_lib.Objects.{
  name_eq, name_beq_iff, NamespacedName, GroupVersionKind, gvk_eq, gvk_beq_iff,
}
use operator_lib.Annotation.{Event, create, update, delete, generic, EventHandler}
use operator_lib.Instrumented.{
  Labels, Object, GaugeVec, resource_created_at_labels, get_resource_labels, unix, set_gauge,
  set_resource_metric, delete_resource_metric, write_metrics, handle,
}

-- The documented behaviour of a vector of gauges that is declared with `names`, where `value` is what
-- a gauge shows, if there is one: a gauge of those labels is found or made, shows what it is set to,
-- and is gone when it is deleted; the gauges of other labels are left alone.
pub record KeepsGauges {S Gauge : Type 0} (vec : GaugeVec S Gauge) (names : List String)
    (value : Labels → S → Option ℤ) : Type 0 where
  pub found :
      (labels : Labels) (s : S)
      → map (λ (l : String × String). l.0) labels ≡ names
      → (m : Gauge) × ((vec.get_metric_with labels s).1 ≡ some m)
  pub set :
      (labels : Labels) (s : S) (m : Gauge) (v : ℤ)
      → (vec.get_metric_with labels s).1 ≡ some m
      → value labels (vec.set m v (vec.get_metric_with labels s).0) ≡ some v
  pub set_ne :
      (labels other : Labels) (s : S) (m : Gauge) (v : ℤ)
      → (vec.get_metric_with labels s).1 ≡ some m
      → labels ≢ other
      → value other (vec.set m v (vec.get_metric_with labels s).0) ≡ value other s
  pub deleted : (labels : Labels) (s : S) → value labels (vec.delete_labels labels s) ≡ none
  pub deleted_ne :
      (labels other : Labels) (s : S)
      → labels ≢ other
      → value other (vec.delete_labels labels s) ≡ value other s

-- What tells resources apart.
pub record Resource : Type 0 where
  pub key : NamespacedName
  pub group_version_kind : GroupVersionKind

unfoldable pub resource_beq : Resource → Resource → Bool
resource_beq a b = a.key == b.key && a.group_version_kind == b.group_version_kind

resource_beq_iff : (a b : Resource) → (resource_beq a b ≡ true) ↔ (a ≡ b)
unfolding resource_beq
resource_beq_iff a b =
    ground (arith, name_beq_iff a.key b.key, gvk_beq_iff a.group_version_kind b.group_version_kind)

instance abbrev resource_eq : Eq Resource
resource_eq = record { beq = resource_beq; beq_iff = resource_beq_iff }

abbrev pub resource_of : Object → Resource
resource_of obj = record { key = obj.key; group_version_kind = obj.group_version_kind }

-- The labels of a resource.
abbrev pub labels_of : Resource → Labels
labels_of r =
    get_resource_labels
      (record { key = r.key; group_version_kind = r.group_version_kind; creation_timestamp = 0 })

-- What is known of the time of creation of a resource: that of its last object in a create or an
-- update event, the new object after the old one, and nothing after a delete event.
unfoldable pub seen : Resource → Option Object → Option ℤ → Option ℤ
seen r none t = t
seen r (some obj) t = if resource_of obj == r then some (unix obj.creation_timestamp) else t

unfoldable pub known : Resource → Event Object → Option ℤ → Option ℤ
known r (create obj) t = seen r obj t
known r (update old new) t = seen r new (seen r old t)
known r (delete none) t = t
known r (delete (some obj)) t = if resource_of obj == r then none else t
known r (generic obj) t = t

unfoldable pub known_after : Resource → List (Event Object) → Option ℤ → Option ℤ
known_after r [] t = t
known_after r (e ∷ es) t = known_after r es (known r e t)

module _ {S Gauge Q : Type 0} (vec : GaugeVec S Gauge) (enqueue : EventHandler Object Q) where
  -- One event after the other, with the handler and with the one that it embeds.
  unfoldable pub handle_all : List (Event Object) → S × Q → Outcome (S × Q)
  handle_all [] sq = returned sq
  handle_all (e ∷ es) sq = bind (handle vec enqueue e sq) (handle_all es)

unfoldable pub enqueue_all : {Q : Type 0} → EventHandler Object Q → List (Event Object) → Q → Q
enqueue_all enqueue [] q = q
enqueue_all enqueue (e ∷ es) q = enqueue_all enqueue es (enqueue e q)

labels-resource_of : (obj : Object) → get_resource_labels obj ≡ labels_of (resource_of obj)
unfolding get_resource_labels
labels-resource_of obj = refl

labels_inj : (a b : Resource) → labels_of a ≡ labels_of b → a ≡ b
unfolding get_resource_labels
labels_inj a b h = ground arith

names_of_labels :
    (obj : Object)
    → map (λ (l : String × String). l.0) (get_resource_labels obj) ≡ resource_created_at_labels
unfolding get_resource_labels
names_of_labels obj = refl

labels_ne :
    (obj : Object) (r : Resource)
    → (resource_of obj == r) ≡ false
    → get_resource_labels obj ≢ labels_of r
labels_ne obj r differs e = false≢true (
    sym differs
    ∙ (resource_beq_iff (resource_of obj) r).1
        (labels_inj (resource_of obj) r (sym (labels-resource_of obj) ∙ e)))

module _ {S Gauge : Type 0} (vec : GaugeVec S Gauge) where
  set_gauge_found :
      (v : ℤ) (p : S × Option Gauge) (m : Gauge)
      → p.1 ≡ some m
      → set_gauge vec v p ≡ returned (vec.set m v p.0)
  set_gauge_found v (s, none) m h = cc
  set_gauge_found v (s, some m') m h = cc

module _ {S Gauge : Type 0} (vec : GaugeVec S Gauge) (value : Labels → S → Option ℤ)
    (keeps : KeepsGauges vec resource_created_at_labels value) where
  -- The same in both: the gauge of a resource is `of_it` if the object is that resource.
  by_resource :
      (obj : Object) (r : Resource) (s s' : S) (of_it : Option ℤ)
      → value (get_resource_labels obj) s' ≡ of_it
      → (get_resource_labels obj ≢ labels_of r → value (labels_of r) s' ≡ value (labels_of r) s)
      → value (labels_of r) s' ≡ (if resource_of obj == r then of_it else value (labels_of r) s)
  by_resource obj r s s' of_it here elsewhere = elim (Bool-cases (resource_of obj == r)) [
    | inl same ↦ rw same (
        ap (λ q. value (labels_of q) s') (sym ((resource_beq_iff (resource_of obj) r).0 same))
        ∙ ap (λ l. value l s') (sym (labels-resource_of obj))
        ∙ here)
    | inr differs ↦ rw differs (elsewhere (labels_ne obj r differs))
  ]

  abbrev Writes : (S → Outcome S) → (Resource → Option ℤ → Option ℤ) → Type 0
  Writes f g =
      (s : S)
      → (s' : S) × (f s ≡ returned s')
        × ((r : Resource) → value (labels_of r) s' ≡ g r (value (labels_of r) s))

  set_resource_metric-Writes :
      (obj : Option Object) → Writes (set_resource_metric vec obj) (λ r. seen r obj)
  unfolding set_resource_metric seen
  set_resource_metric-Writes none s = (s, refl, λ r. refl)
  set_resource_metric-Writes (some obj) s =
      let labels = get_resource_labels obj in
      let v = unix obj.creation_timestamp in
      let (m, there) = keeps.found labels s (names_of_labels obj) in
      (
        vec.set m v (vec.get_metric_with labels s).0,
        set_gauge_found vec v (vec.get_metric_with labels s) m there,
        λ r.
            by_resource obj r s _ (some v) (keeps.set labels s m v there)
              (keeps.set_ne labels (labels_of r) s m v there),
      )

  write_metrics-Writes : (e : Event Object) → Writes (write_metrics vec e) (λ r. known r e)
  unfolding write_metrics known delete_resource_metric
  write_metrics-Writes (create obj) s = set_resource_metric-Writes obj s
  write_metrics-Writes (update old new) s =
      let (s', sets, says) = set_resource_metric-Writes old s in
      let (s'', sets', says') = set_resource_metric-Writes new s' in
      (s'', rw (sets, sets') refl, λ r. says' r ∙ ap (seen r new) (says r))
  write_metrics-Writes (delete none) s = (s, refl, λ r. refl)
  write_metrics-Writes (delete (some obj)) s =
      let labels = get_resource_labels obj in
      (
        vec.delete_labels labels s,
        refl,
        λ r.
            by_resource obj r s _ none (keeps.deleted labels s)
              (keeps.deleted_ne labels (labels_of r) s),
      )
  write_metrics-Writes (generic obj) s = (s, refl, λ r. refl)

-- After any events, handled one after the other, nothing has panicked, the queue is the one that the
-- embedded handler makes of the events, and the gauge of every resource shows what is known of its
-- creation from them. (`value` is what a gauge shows; the vector of gauges behaves as documented.)
pub handle_all-known :
    {S Gauge Q : Type 0} (vec : GaugeVec S Gauge) (enqueue : EventHandler Object Q)
    (value : Labels → S → Option ℤ) (events : List (Event Object)) (s : S) (q : Q)
    → KeepsGauges vec resource_created_at_labels value
    → (s' : S) × (handle_all vec enqueue events (s, q)
        ≡ returned (s', enqueue_all enqueue events q))
      × ((r : Resource) → value (labels_of r) s' ≡ known_after r events (value (labels_of r) s))
unfolding handle_all enqueue_all known_after handle
handle_all-known vec enqueue value [] s q keeps = (s, refl, λ r. refl)
handle_all-known vec enqueue value (e ∷ es) s q keeps =
    let (s', writes, says) = write_metrics-Writes vec value keeps e s in
    let (s'', goes_on, says') = handle_all-known vec enqueue value es s' (enqueue e q) keeps in
    (s'', rw writes goes_on, λ r. says' r ∙ ap (known_after r es) (says r))
