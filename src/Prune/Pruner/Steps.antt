-- ===== src/Prune/Pruner/Steps.antt =====
-- Each loop of `Prune` runs as its relation says.
use operator_lib.Common.{
  returned_inj, ok_inj, List, [], ◌∷◌, ◌++◌, Option, none, some, returned, bind-returned, Result,
  ok, err, ◌≡◌, refl, sym, ap, ◌∙◌, true, Bool-cases, inl, inr,
}
use operator_lib.Prune.Registry.{Object, Error, is_unprunable, as_unprunable, is_prunable, wrapped}
use operator_lib.Prune.Pruner.{
  Pruner, convert, judge, inspect, inspect_converted, collect, delete_all,
}
use operator_lib.Prune.Pruner.Relation.{Offers, Deletes}
use mathlib.Core.List.{append-nil, append_assoc}

judge-none : (obj : Object) (e : Option Error) → judge obj e ≡ ok none → is_unprunable e ≡ true
unfolding judge is_unprunable
judge-none obj none h = cc
judge-none obj (some e) h = elim (Bool-cases (as_unprunable e)) [
  | inl passes ↦ passes
  | inr fails ↦ let h' = rw fails at h in cc
]

judge-some :
    (obj obj' : Object) (e : Option Error)
    → judge obj e ≡ ok (some obj')
    → (e ≡ none) × (obj ≡ obj')
unfolding judge is_unprunable
judge-some obj obj' none h = (refl, cc)
judge-some obj obj' (some e) h = elim (Bool-cases (as_unprunable e)) [
  | inl passes ↦ let h' = rw passes at h in cc
  | inr fails ↦ let h' = rw fails at h in cc
]

module _ {World Selector : Type 0} (p : Pruner World Selector) where
  inspect_lem :
      (item : Object) (r : Option Object)
      → inspect p item ≡ returned (ok r)
      → (obj : Object) × (e : Option Error) × (convert p.client p.gvk item ≡ returned (ok obj))
        × (is_prunable p.registry obj ≡ returned e)
        × (judge obj e ≡ ok r)
  unfolding inspect inspect_converted
  inspect_lem item r h =
      let (c, hc, hr) =
        bind-returned (convert p.client p.gvk item) (inspect_converted p.registry) (ok r) h in
      go c hc hr
    where
      go :
          (c : Result Error Object)
          → convert p.client p.gvk item ≡ returned c
          → inspect_converted p.registry c ≡ returned (ok r)
          → (obj : Object) × (e : Option Error) × (convert p.client p.gvk item ≡ returned (ok obj))
            × (is_prunable p.registry obj ≡ returned e)
            × (judge obj e ≡ ok r)
      go (err e) hc hr = cc
      go (ok obj) hc hr =
          let (e, he, hj) =
            bind-returned (is_prunable p.registry obj) (λ e. returned (judge obj e)) (ok r) hr in
          (obj, e, hc, he, cc)

  pub collect-Offers :
      (items acc objs : List Object)
      → collect p items acc ≡ returned (ok objs)
      → (offered : List Object) × Offers p items offered × (objs ≡ acc ++ offered)
  unfolding collect
  collect-Offers [] acc objs h =
      ([], Offers.done, sym (rw (append-nil acc) (ok_inj (returned_inj h))))
  collect-Offers (item ∷ items) acc objs h =
      let (r, hr, hk) = bind-returned (inspect p item) _ (ok objs) h in
      go r hr (collect-Offers items) hk
    where
      go :
          (r : Result Error (Option Object))
          → inspect p item ≡ returned r
          → ((acc' objs : List Object)
              → collect p items acc' ≡ returned (ok objs)
              → (offered : List Object) × Offers p items offered × (objs ≡ acc' ++ offered))
          → (elim r [
            | err e ↦ returned (err e)
            | ok none ↦ collect p items acc
            | ok (some obj) ↦ collect p items (acc ++ (obj ∷ []))
          ])
            ≡ returned (ok objs)
          → (offered : List Object) × Offers p (item ∷ items) offered × (objs ≡ acc ++ offered)
      go (err e) hr rest hk = cc
      go (ok none) hr of_rest hk =
          let (obj, e, hc, he, hj) = inspect_lem item none hr in
          let (offered, rest, same) = of_rest acc objs hk in
          (offered, Offers.skip e hc he (judge-none obj e hj) rest, same)
      go (ok (some obj')) hr of_rest hk =
          let (obj, e, hc, he, hj) = inspect_lem item (some obj') hr in
          let (none_found, same_obj) = judge-some obj obj' e hj in
          let (offered, rest, same) = of_rest (acc ++ (obj' ∷ [])) objs hk in
          (
            obj' ∷ offered,
            Offers.offer (rw same_obj at hc) (rw (none_found, same_obj) at he) rest,
            same ∙ append_assoc acc (obj' ∷ []) offered,
          )

  pub Offers-collect :
      (items acc offered : List Object)
      → Offers p items offered
      → collect p items acc ≡ returned (ok (acc ++ offered))
  unfolding collect inspect inspect_converted judge is_unprunable
  Offers-collect items acc offered Offers.done = rw (append-nil acc) refl
  Offers-collect (item ∷ items) acc offered (Offers.skip {obj = obj} e hc he hu rest) =
      rw (hc, he, hu) (Offers-collect items acc offered rest)
  Offers-collect (item ∷ items) acc (obj ∷ offered) (Offers.offer hc he rest) =
      rw (hc, he)
        (Offers-collect items (acc ++ (obj ∷ [])) offered rest
          ∙ ap (λ r. returned (ok r)) (append_assoc acc (obj ∷ []) offered))

  pub delete_all-Deletes :
      (objs : List Object) (w w' : World)
      → delete_all p.client objs w ≡ (w', none)
      → Deletes p.client objs w w'
  unfolding delete_all
  delete_all-Deletes [] w w' h = rw (ap (λ x. x.0) h) Deletes.done
  delete_all-Deletes (obj ∷ objs) w w' h =
      go (p.client.delete obj w).1 refl (λ hk. delete_all-Deletes objs _ w' hk) h
    where
      go :
          (failed : Option Error)
          → (p.client.delete obj w).1 ≡ failed
          → (delete_all p.client objs (p.client.delete obj w).0 ≡ (w', none)
              → Deletes p.client objs (p.client.delete obj w).0 w')
          → (elim failed [
            | some e ↦ ((p.client.delete obj w).0, some (wrapped "error pruning object: " e))
            | none ↦ delete_all p.client objs (p.client.delete obj w).0
          ])
            ≡ (w', none)
          → Deletes p.client (obj ∷ objs) w w'
      go none hd rest hk = Deletes.delete (ap (λ e. ((p.client.delete obj w).0, e)) hd) (rest hk)
      go (some e) hd rest hk = cc

  -- A deletion whose result is known.
  pub delete_all_cons :
      (obj : Object) (objs : List Object) (w w' : World) (failed : Option Error)
      → p.client.delete obj w ≡ (w', failed)
      → delete_all p.client (obj ∷ objs) w ≡ (elim failed [
        | some e ↦ (w', some (wrapped "error pruning object: " e))
        | none ↦ delete_all p.client objs w'
      ])
  unfolding delete_all
  delete_all_cons obj objs w w' failed hd = ap next hd
    where
      next : World × Option Error → World × Option Error
      next d = elim d.1 [
        | some e ↦ (d.0, some (wrapped "error pruning object: " e))
        | none ↦ delete_all p.client objs d.0
      ]

  pub Deletes-delete_all :
      (objs : List Object) (w w' : World)
      → Deletes p.client objs w w'
      → delete_all p.client objs w ≡ (w', none)
  unfolding delete_all
  Deletes-delete_all objs w w' Deletes.done = refl
  Deletes-delete_all (obj ∷ objs) w w' (Deletes.delete hd rest) =
      delete_all_cons obj objs w _ none hd ∙ Deletes-delete_all objs _ w' rest
