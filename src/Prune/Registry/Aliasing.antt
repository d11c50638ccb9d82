-- ===== src/Prune/Registry/Aliasing.antt =====
-- Which registries a registration is seen through.
use operator_lib.Common.{
  ℕ, ◌<◌, Bool, false, [], ◌∷◌, ◌++◌, Option, none, some, ◌≡◌, ◌≢◌, refl, sym, ap, ◌∙◌, ◌==◌,
  nat_eq, if◌then◌else◌, Bool-cases, inl, inr, ==_refl, ==_sound, ==_of_ne, arith,
}
use operator_lib.Common.Maps.{lookup, insert, lookup-insert, lookup-insert_self, lookup-insert_ne}
use mathlib.Core.Path.{subst}
use operator_lib.Objects.{GroupVersionKind, gvk_eq, gvk_beq}
use operator_lib.Prune.Registry.{
  IsPrunableFunc, Registry, register_is_prunable_func, default_registry,
}
use operator_lib.Prune.Registry.Shared.{
  Heap, MapRegistry, entries, made, store, register, contents, Registrations, register_all, init,
}

-- The registrations, one after the other, in a registry that is a value.
unfoldable pub registered : Registrations → Registry → Registry
registered [] r = r
registered ((gvk, f) ∷ regs) r = registered regs (register_is_prunable_func r gvk f)

-- Both registries hold the same map, which is not nil.
shares : Option ℕ → Option ℕ → Bool
shares (some a) (some b) = a == b
shares (some a) none = false
shares none c = false

-- A map that is not nil is one that there is.
IsAllocated : Heap → Option ℕ → Type 0
IsAllocated h none = Unit
IsAllocated h (some ref) = ref < h.next

lt_ne : (a b : ℕ) → a < b → a ≢ b
lt_ne a b h e = omega arith

-- A map that is made is empty, and the others stay.
entries-made_self :
    (o : Option ℕ) (h : Heap) → entries (made o h).1 (some (made o h).0) ≡ entries h o
unfolding entries made
entries-made_self none h = rw (lookup-insert_self h.next [] h.maps) refl
entries-made_self (some ref) h = refl

entries-made_other :
    (o : Option ℕ) (b : ℕ) (h : Heap)
    → b < h.next
    → entries (made o h).1 (some b) ≡ entries h (some b)
unfolding entries made
entries-made_other none b h old =
    rw (lookup-insert_ne h.next b [] h.maps (λ e. lt_ne b h.next old (sym e))) refl
entries-made_other (some ref) b h old = refl

module _ (gvk : GroupVersionKind) (f : IsPrunableFunc) where
  entries-store :
      (ref b : ℕ) (h : Heap)
      → entries (store gvk f (ref, h)).1 (some b)
        ≡ (if ref == b then insert gvk f (entries h (some b)) else entries h (some b))
  unfolding entries store
  entries-store ref b h = elim (Bool-cases (ref == b)) [
    | inl same ↦
        rw
          (
            lookup-insert ref b (insert gvk f (entries h (some ref))) h.maps,
            same,
            ==_sound ref b same,
          )
          refl
    | inr differs ↦
        rw (lookup-insert ref b (insert gvk f (entries h (some ref))) h.maps, differs) refl
  ]

  entries-register_other :
      (r c : Option ℕ) (h : Heap)
      → IsAllocated h c
      → entries (store gvk f (made r h)).1 c
        ≡ (if shares r c then insert gvk f (entries h c) else entries h c)
  unfolding shares entries made IsAllocated
  entries-register_other none none h old = refl
  entries-register_other (some a) none h old = refl
  entries-register_other (some a) (some b) h old = entries-store a b h
  entries-register_other none (some b) h old =
      entries-store h.next b (made none h).1
      ∙ rw (==_of_ne h.next b (λ e. lt_ne b h.next old (sym e))) (entries-made_other none b h old)

  made-IsAllocated :
      (r : Option ℕ) (h : Heap)
      → IsAllocated h r
      → IsAllocated (store gvk f (made r h)).1 (some (made r h).0)
  unfolding made IsAllocated store
  made-IsAllocated none h old = omega arith
  made-IsAllocated (some ref) h old = old

  still-IsAllocated :
      (r c : Option ℕ) (h : Heap) → IsAllocated h c → IsAllocated (store gvk f (made r h)).1 c
  unfolding made IsAllocated store
  still-IsAllocated r none h old = old
  still-IsAllocated none (some b) h old = omega arith
  still-IsAllocated (some a) (some b) h old = old

entries-register_self :
    (gvk : GroupVersionKind) (f : IsPrunableFunc) (r : Option ℕ) (h : Heap)
    → entries (store gvk f (made r h)).1 (some (made r h).0) ≡ insert gvk f (entries h r)
entries-register_self gvk f r h =
    entries-store gvk f (made r h).0 (made r h).0 (made r h).1
    ∙ rw (==_refl (made r h).0) (ap (insert gvk f) (entries-made_self r h))

shares-made :
    (r c : Option ℕ) (h : Heap) → IsAllocated h c → shares (some (made r h).0) c ≡ shares r c
unfolding shares made IsAllocated
shares-made none none h old = refl
shares-made none (some b) h old = ==_of_ne h.next b (λ e. lt_ne b h.next old (sym e))
shares-made (some a) c h old = refl

-- Once a registry has a map, registrations change the map and not the registry.
register_all-same :
    (regs : Registrations) (ref : ℕ) (h : Heap)
    → (register_all regs (record { prunables = some ref }, h)).0 ≡ record { prunables = some ref }
unfolding register_all register store made
register_all-same [] ref h = refl
register_all-same ((gvk, f) ∷ regs) ref h = register_all-same regs ref _

-- After registrations, a registry decides as the registry that is a value and had the same entries.
register_all-contents :
    (regs : Registrations) (r : MapRegistry) (h : Heap)
    → contents (register_all regs (r, h)).1 (register_all regs (r, h)).0
      ≡ registered regs (contents h r)
unfolding register_all register registered contents register_is_prunable_func store
register_all-contents [] r h = refl
register_all-contents ((gvk, f) ∷ regs) r h =
    register_all-contents regs _ _
    ∙ ap (λ es. registered regs (record { prunables = es }))
        (entries-register_self gvk f r.prunables h)

-- One registration, and then the others.
registered_after :
    (gvk : GroupVersionKind) (f : IsPrunableFunc) (regs : Registrations) (r c : Option ℕ) (h : Heap)
    → IsAllocated h c
    → (if shares (some (made r h).0) c
        then registered regs (contents (store gvk f (made r h)).1 (record { prunables = c }))
        else contents (store gvk f (made r h)).1 (record { prunables = c }))
      ≡ (if shares r c
          then registered ((gvk, f) ∷ regs) (contents h (record { prunables = c }))
          else contents h (record { prunables = c }))
unfolding registered contents register_is_prunable_func
registered_after gvk f regs r c h old =
    rw (shares-made r c h old, entries-register_other gvk f r c h old)
      (elim (Bool-cases (shares r c)) [ inl same ↦ rw same refl | inr differs ↦ rw differs refl ])

-- Registrations in one registry are seen through another one exactly if both hold the same map, which
-- is not nil: the other one then has the entries of all of them, and else the entries that it had.
-- (The maps of both are ones that there are.)
register_all-shares :
    (regs : Registrations) (r c : MapRegistry) (h : Heap)
    → IsAllocated h r.prunables
    → IsAllocated h c.prunables
    → contents (register_all regs (r, h)).1 c
      ≡ (if shares r.prunables c.prunables then registered regs (contents h c) else contents h c)
unfolding register_all register registered contents register_is_prunable_func store
register_all-shares [] r c h hr hc = elim (Bool-cases (shares r.prunables c.prunables)) [
  | inl same ↦ rw same refl
  | inr differs ↦ rw differs refl
]
register_all-shares ((gvk, f) ∷ regs) r c h hr hc =
    register_all-shares regs _ c _ (made-IsAllocated gvk f r.prunables h hr)
      (still-IsAllocated gvk f r.prunables c.prunables h hc)
    ∙ registered_after gvk f regs r.prunables c.prunables h hc

registered-append :
    (before after : Registrations) (r : Registry)
    → registered (before ++ after) r ≡ registered after (registered before r)
unfolding registered
registered-append [] after r = refl
registered-append ((gvk, f) ∷ before) after r = registered-append before after _

init-contents : contents init.1 init.0 ≡ default_registry
unfolding init contents default_registry register_is_prunable_func insert entries gvk_beq register
    store lookup made
init-contents = refl

-- A copy of the default registry that is taken between registrations, as a new pruner takes one, has
-- the entries of all of them in the end, also of those after the copy.
pub copied_registry_follows :
    (before after : Registrations)
    → contents (register_all after (register_all before init)).1 (register_all before init).0
      ≡ registered (before ++ after) default_registry
unfolding register_all init registered contents register store made
copied_registry_follows before after =
    let m = register_all before init in
    let has_map = register_all-same before 0 init.1 in
    let same =
      subst (λ q. (register_all after (q, m.1)).0 ≡ q) (sym has_map)
        (register_all-same after 0 m.1) in
    ap (contents (register_all after m).1) (sym same)
    ∙ register_all-contents after m.0 m.1
    ∙ ap (registered after)
        (register_all-contents before init.0 init.1 ∙ ap (registered before) init-contents)
    ∙ sym (registered-append before after default_registry)
