-- ===== src/Prune/Pruner/Failures.antt =====
-- How each loop of `Prune` ends early, step by step.
use operator_lib.Common.{
  returned_inj, err_inj, some_inj, List, [], ◌∷◌, ◌++◌, Option, none, some, returned, bind-returned,
  Result, ok, err, ◌≡◌, refl, sym, ap, ◌∙◌, false, Bool-cases, inl, inr,
}
use mathlib.Core.Path.{ap₂}
use operator_lib.Prune.Registry.{Object, Error, is_unprunable, as_unprunable, is_prunable, wrapped}
use operator_lib.Prune.Pruner.{
  Client, Pruner, convert, judge, inspect, inspect_converted, collect, delete_all,
}
use operator_lib.Prune.Pruner.Steps.{delete_all_cons}

module _ {World Selector : Type 0} where
  -- An item that is not converted, or that the registry reports an error for which is not that it is
  -- unprunable.
  pub data FailsOn (p : Pruner World Selector) (item : Object) (e : Error) : Type 0 where
    not_converted : convert p.client p.gvk item ≡ returned (err e) → FailsOn p item e
    not_judged :
        (obj : Object)
        → convert p.client p.gvk item ≡ returned (ok obj)
        → is_prunable p.registry obj ≡ returned (some e)
        → is_unprunable (some e) ≡ false
        → FailsOn p item e

  -- The first item that fails, after items that were passed over or offered.
  pub data Rejects (p : Pruner World Selector) (e : Error) : List Object → Type 0 where
    here : {item : Object} {items : List Object} → FailsOn p item e → Rejects p e (item ∷ items)
    later :
        {item : Object} {items : List Object} (r : Option Object)
        → inspect p item ≡ returned (ok r)
        → Rejects p e items
        → Rejects p e (item ∷ items)

  -- The first deletion that fails, after deletions that did not.
  pub data Breaks (c : Client World Selector) (e : Error)
      : List Object → World → World → Type 0 where
    here :
        {obj : Object} {objs : List Object} {w w' : World}
        → c.delete obj w ≡ (w', some e)
        → Breaks c e (obj ∷ objs) w w'
    later :
        {obj : Object} {objs : List Object} {w w' w'' : World}
        → c.delete obj w ≡ (w', none)
        → Breaks c e objs w' w''
        → Breaks c e (obj ∷ objs) w w''

judge-err :
    (obj : Object) (e : Option Error) (e' : Error)
    → judge obj e ≡ err e'
    → (e ≡ some e') × (is_unprunable (some e') ≡ false)
unfolding judge is_unprunable
judge-err obj none e' h = cc
judge-err obj (some e) e' h = elim (Bool-cases (as_unprunable e)) [
  | inl passes ↦ let h' = rw passes at h in cc
  | inr fails ↦
      let same = err_inj (rw fails at h) in (ap some same, ap as_unprunable (sym same) ∙ fails)
]

module _ {World Selector : Type 0} (p : Pruner World Selector) where
  inspect-FailsOn :
      (item : Object) (e : Error) → inspect p item ≡ returned (err e) → FailsOn p item e
  unfolding inspect inspect_converted
  inspect-FailsOn item e h =
      let (c, hc, hr) =
        bind-returned (convert p.client p.gvk item) (inspect_converted p.registry) (err e) h in
      go c hc hr
    where
      go :
          (c : Result Error Object)
          → convert p.client p.gvk item ≡ returned c
          → inspect_converted p.registry c ≡ returned (err e)
          → FailsOn p item e
      go (err e') hc hr =
          FailsOn.not_converted (hc ∙ ap (λ x. returned (err x)) (err_inj (returned_inj hr)))
      go (ok obj) hc hr =
          let (v, hv, hj) =
            bind-returned (is_prunable p.registry obj) (λ e. returned (judge obj e)) (err e) hr in
          let (same, hu) = judge-err obj v e (returned_inj hj) in
          FailsOn.not_judged obj hc (hv ∙ ap returned same) hu

  FailsOn-inspect :
      (item : Object) (e : Error) → FailsOn p item e → inspect p item ≡ returned (err e)
  unfolding inspect inspect_converted judge
  FailsOn-inspect item e (FailsOn.not_converted hc) = rw hc refl
  FailsOn-inspect item e (FailsOn.not_judged obj hc hv hu) = rw (hc, hv, hu) refl

  pub collect-Rejects :
      (items acc : List Object) (e : Error)
      → collect p items acc ≡ returned (err e)
      → Rejects p e items
  unfolding collect
  collect-Rejects [] acc e h = cc
  collect-Rejects (item ∷ items) acc e h =
      let (r, hr, hk) = bind-returned (inspect p item) _ (err e) h in
      go r hr (collect-Rejects items) hk
    where
      go :
          (r : Result Error (Option Object))
          → inspect p item ≡ returned r
          → ((acc' : List Object) (e' : Error)
              → collect p items acc' ≡ returned (err e')
              → Rejects p e' items)
          → (elim r [
            | err e ↦ returned (err e)
            | ok none ↦ collect p items acc
            | ok (some obj) ↦ collect p items (acc ++ (obj ∷ []))
          ])
            ≡ returned (err e)
          → Rejects p e (item ∷ items)
      go (err e') hr rest hk =
          Rejects.here
            (inspect-FailsOn item e (hr ∙ ap (λ x. returned (err x)) (err_inj (returned_inj hk))))
      go (ok none) hr rest hk = Rejects.later none hr (rest acc e hk)
      go (ok (some obj)) hr rest hk = Rejects.later (some obj) hr (rest (acc ++ (obj ∷ [])) e hk)

  pub Rejects-collect :
      (items acc : List Object) (e : Error)
      → Rejects p e items
      → collect p items acc ≡ returned (err e)
  unfolding collect
  Rejects-collect [] acc e x = elim x [ ]
  Rejects-collect (item ∷ items) acc e (Rejects.here fails) = rw (FailsOn-inspect item e fails) refl
  Rejects-collect (item ∷ items) acc e (Rejects.later none hr rest) =
      rw hr (Rejects-collect items acc e rest)
  Rejects-collect (item ∷ items) acc e (Rejects.later (some obj) hr rest) =
      rw hr (Rejects-collect items (acc ++ (obj ∷ [])) e rest)

  pub Breaks-delete_all :
      (objs : List Object) (w w' : World) (e : Error)
      → Breaks p.client e objs w w'
      → delete_all p.client objs w ≡ (w', some (wrapped "error pruning object: " e))
  unfolding delete_all
  Breaks-delete_all [] w w' e x = elim x [ ]
  Breaks-delete_all (obj ∷ objs) w w' e (Breaks.here hd) =
      delete_all_cons p obj objs w w' (some e) hd
  Breaks-delete_all (obj ∷ objs) w w' e (Breaks.later hd rest) =
      delete_all_cons p obj objs w _ none hd ∙ (Breaks-delete_all objs _ w' e rest)

  pub delete_all-Breaks :
      (objs : List Object) (w w' : World) (e : Error)
      → delete_all p.client objs w ≡ (w', some e)
      → (cause : Error) × (e ≡ wrapped "error pruning object: " cause)
        × Breaks p.client cause objs w w'
  unfolding delete_all
  delete_all-Breaks [] w w' e h = cc
  delete_all-Breaks (obj ∷ objs) w w' e h =
      go (p.client.delete obj w).1 refl (λ hk. delete_all-Breaks objs _ w' e hk) h
    where
      go :
          (failed : Option Error)
          → (p.client.delete obj w).1 ≡ failed
          → (delete_all p.client objs (p.client.delete obj w).0 ≡ (w', some e)
              → (cause : Error) × (e ≡ wrapped "error pruning object: " cause)
                × Breaks p.client cause objs (p.client.delete obj w).0 w')
          → (elim failed [
            | some e ↦ ((p.client.delete obj w).0, some (wrapped "error pruning object: " e))
            | none ↦ delete_all p.client objs (p.client.delete obj w).0
          ])
            ≡ (w', some e)
          → (cause : Error) × (e ≡ wrapped "error pruning object: " cause)
            × Breaks p.client cause (obj ∷ objs) w w'
      go none hd rest hk =
          let (cause, same, breaks) = rest hk in
          (cause, same, Breaks.later (ap (λ d. ((p.client.delete obj w).0, d)) hd) breaks)
      go (some cause) hd rest hk = (
        cause,
        some_inj (sym (ap (λ x. x.1) hk)),
        Breaks.here (ap₂ (λ u d. (u, d)) (ap (λ x. x.0) hk) hd),
      )
