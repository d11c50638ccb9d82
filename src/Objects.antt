-- ===== src/Objects.antt =====
-- The Kubernetes data that several packages read: of each type only the fields that this
-- repository's code names.
use operator_lib.Common.{String, Bool, true, ◌&&◌, ◌≡◌, ◌↔◌, arith, Eq, ◌==◌, string_eq}

-- `types.NamespacedName`, which is also `client.ObjectKey`
pub record NamespacedName : Type 0 where
  pub namespace : String
  pub name : String

-- `schema.GroupKind` and `schema.GroupVersionKind`
pub record GroupKind : Type 0 where
  pub group : String
  pub kind : String

pub record GroupVersionKind : Type 0 where
  pub group : String
  pub version : String
  pub kind : String

unfoldable pub gvk_beq : GroupVersionKind → GroupVersionKind → Bool
gvk_beq a b = a.group == b.group && (a.version == b.version && a.kind == b.kind)

pub gvk_beq_iff : (a b : GroupVersionKind) → (gvk_beq a b ≡ true) ↔ (a ≡ b)
unfolding gvk_beq
gvk_beq_iff a b = ground (
  arith,
  string_eq.beq_iff a.group b.group,
  string_eq.beq_iff a.version b.version,
  string_eq.beq_iff a.kind b.kind,
)

-- `==` on two `schema.GroupVersionKind`s, as a map compares its keys
instance abbrev pub gvk_eq : Eq GroupVersionKind
gvk_eq = record { beq = gvk_beq; beq_iff = gvk_beq_iff }

unfoldable pub name_beq : NamespacedName → NamespacedName → Bool
name_beq a b = a.name == b.name && a.namespace == b.namespace

pub name_beq_iff : (a b : NamespacedName) → (name_beq a b ≡ true) ↔ (a ≡ b)
unfolding name_beq
name_beq_iff a b =
    ground (arith, string_eq.beq_iff a.name b.name, string_eq.beq_iff a.namespace b.namespace)

instance abbrev pub name_eq : Eq NamespacedName
name_eq = record { beq = name_beq; beq_iff = name_beq_iff }
