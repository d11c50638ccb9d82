-- ===== src/Prune/Pruner/Errors.antt =====
-- `Prune` returns an error exactly if one of its four steps fails.
use operator_lib.Common.{
  returned_inj, err_inj, List, [], Option, none, some, Outcome, returned, bind-returned, Result, ok,
  err, ◌≡◌, refl, sym, ap, ◌∙◌, ◌↔◌,
}
use operator_lib.Prune.Registry.{Object, Error, wrapped}
use operator_lib.Prune.Pruner.{
  Pruner, Labels, collect, delete_all, prune_selected, prune_collected, prune_listed, prune,
}
use operator_lib.Prune.Pruner.Relation.{Offers}
use mathlib.Core.Path.{subst}
use operator_lib.Prune.Pruner.Steps.{collect-Offers, Offers-collect}
use operator_lib.Prune.Pruner.Failures.{
  Rejects, Breaks, collect-Rejects, Rejects-collect, delete_all-Breaks, Breaks-delete_all,
}

module _ {World Selector : Type 0} where
  -- What a run asks the API server to list.
  abbrev pub listing :
      (Labels → Selector) → Pruner World Selector → World → World × Result Error (List Object)
  listing as_selector p =
      p.client.list p.gvk
        (record { label_selector = as_selector p.labels; namespace = p.namespace })

  -- A run of the pruner that ends with the error `e`: the listing fails, or an item does, or the
  -- strategy, or a deletion. Nothing has been deleted but by the last of them.
  pub data FailsWith (as_selector : Labels → Selector) (p : Pruner World Selector) (w w' : World)
      : Error → Type 0 where
    not_listed :
        (cause : Error)
        → listing as_selector p w ≡ (w', err cause)
        → FailsWith as_selector p w w' (wrapped "error getting a list of resources: " cause)
    rejected :
        (items : List Object) (e : Error)
        → listing as_selector p w ≡ (w', ok items)
        → Rejects p e items
        → FailsWith as_selector p w w' e
    not_selected :
        (items offered : List Object) (cause : Error)
        → listing as_selector p w ≡ (w', ok items)
        → Offers p items offered
        → p.strategy offered ≡ returned (err cause)
        → FailsWith as_selector p w w' (wrapped "error determining prunable objects: " cause)
    not_deleted :
        (listed : World) (items offered pruned : List Object) (cause : Error)
        → listing as_selector p w ≡ (listed, ok items)
        → Offers p items offered
        → p.strategy offered ≡ returned (ok pruned)
        → Breaks p.client cause pruned listed w'
        → FailsWith as_selector p w w' (wrapped "error pruning object: " cause)

module _ {World Selector : Type 0} (p : Pruner World Selector) where
  selected-err :
      (listed w' : World) (pruned : List Object) (e : Error)
      → prune_selected p listed (ok pruned) ≡ (w', err e)
      → (cause : Error) × (e ≡ wrapped "error pruning object: " cause)
        × Breaks p.client cause pruned listed w'
  unfolding prune_selected
  selected-err listed w' pruned e h = go (delete_all p.client pruned listed) refl h
    where
      go :
          (d : World × Option Error)
          → delete_all p.client pruned listed ≡ d
          → ◌≡◌ {A = World × Result Error (List Object)}
              (d.0, elim d.1 [ none ↦ ok pruned | some e ↦ err e ])
              (w', err e)
          → (cause : Error) × (e ≡ wrapped "error pruning object: " cause)
            × Breaks p.client cause pruned listed w'
      go (u, none) hd h =
          let absurd_end : ◌≡◌ {A = Result Error (List Object)} (ok pruned) (err e) =
            ap (λ x. x.1) h in
          cc
      go (u, some e') hd h = delete_all-Breaks p pruned listed w' e (
          hd
          ∙ ap (λ x. (x, some e')) (ap (λ x. x.0) h)
          ∙ ap (λ x. (w', some x)) (err_inj (ap (λ x. x.1) h)))

  ended :
      (as_selector : Labels → Selector) (w u w' : World) (x e : Error)
      → ◌≡◌ {A = Outcome (World × Result Error (List Object))}
          (returned (u, err x))
          (returned (w', err e))
      → FailsWith as_selector p w u x
      → FailsWith as_selector p w w' e
  ended as_selector w u w' x e h fails =
      subst (FailsWith as_selector p w w') (err_inj (ap (λ y. y.1) (returned_inj h)))
        (subst (λ v. FailsWith as_selector p w v x) (ap (λ y. y.0) (returned_inj h)) fails)

  prune-FailsWith :
      (as_selector : Labels → Selector) (w w' : World) (e : Error)
      → prune as_selector p w ≡ returned (w', err e)
      → FailsWith as_selector p w w' e
  unfolding prune prune_listed prune_collected prune_selected
  prune-FailsWith as_selector w w' e h = go (listing as_selector p w) refl h
    where
      selected :
          (listed : World) (items offered : List Object) (s : Result Error (List Object))
          → listing as_selector p w ≡ (listed, ok items)
          → Offers p items offered
          → p.strategy offered ≡ returned s
          → ◌≡◌ {A = Outcome (World × Result Error (List Object))}
              (returned (prune_selected p listed s))
              (returned (w', err e))
          → FailsWith as_selector p w w' e
      selected listed items offered (err cause) hl offers hs hd =
          ended as_selector w listed w' _ e hd
            (FailsWith.not_selected items offered cause hl offers hs)
      selected listed items offered (ok pruned) hl offers hs hd =
          let (cause, same, breaks) = selected-err listed w' pruned e (returned_inj hd) in
          subst (FailsWith as_selector p w w') (sym same)
            (FailsWith.not_deleted listed items offered pruned cause hl offers hs breaks)

      collected :
          (listed : World) (items : List Object) (c : Result Error (List Object))
          → listing as_selector p w ≡ (listed, ok items)
          → collect p items [] ≡ returned c
          → prune_collected p listed c ≡ returned (w', err e)
          → FailsWith as_selector p w w' e
      collected listed items (err e') hl hc h =
          ended as_selector w listed w' e' e h
            (FailsWith.rejected items e' hl (collect-Rejects p items [] e' hc))
      collected listed items (ok offered) hl hc h =
          let (s, hs, hd) =
            bind-returned (p.strategy offered) (λ r. returned (prune_selected p listed r)) _ h in
          let (offered', offers, same) = collect-Offers p items [] offered hc in
          selected listed items offered s hl (subst (Offers p items) (sym same) offers) hs hd

      go :
          (l : World × Result Error (List Object))
          → listing as_selector p w ≡ l
          → prune_listed p l ≡ returned (w', err e)
          → FailsWith as_selector p w w' e
      go (listed, err cause) hl h =
          ended as_selector w listed w' _ e h (FailsWith.not_listed cause hl)
      go (listed, ok items) hl h =
          let (r, hr, hk) = bind-returned (collect p items []) (prune_collected p listed) _ h in
          collected listed items r hl hr hk

  FailsWith-prune :
      (as_selector : Labels → Selector) (w w' : World) (e : Error)
      → FailsWith as_selector p w w' e
      → prune as_selector p w ≡ returned (w', err e)
  unfolding prune prune_listed prune_collected prune_selected
  FailsWith-prune as_selector w w' e (FailsWith.not_listed cause hl) = rw hl refl
  FailsWith-prune as_selector w w' e (FailsWith.rejected items e' hl rejects) =
      rw (hl, Rejects-collect p items [] e' rejects) refl
  FailsWith-prune as_selector w w' e (FailsWith.not_selected items offered cause hl offers hs) =
      rw (hl, Offers-collect p items [] offered offers, hs) refl
  FailsWith-prune as_selector w w' e
        (FailsWith.not_deleted listed items offered pruned cause hl offers hs breaks) =
      rw
        (
          hl,
          Offers-collect p items [] offered offers,
          hs,
          Breaks-delete_all p pruned listed w' cause breaks,
        )
        refl

-- `Prune` returns an error in a world exactly if its listing fails, the conversion or the registry
-- fails on an item, the strategy fails on the prunable objects, or a deletion fails: the error is the
-- one of that step, and the world is the one that the step leaves, with every deletion before it.
pub prune_fails_iff :
    {World Selector : Type 0} (as_selector : Labels → Selector) (p : Pruner World Selector)
    (w w' : World) (e : Error)
    → (prune as_selector p w ≡ returned (w', err e)) ↔ FailsWith as_selector p w w' e
prune_fails_iff as_selector p w w' e =
    (prune-FailsWith p as_selector w w' e, FailsWith-prune p as_selector w w' e)
