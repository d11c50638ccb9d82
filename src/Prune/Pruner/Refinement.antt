-- ===== src/Prune/Pruner/Refinement.antt =====
-- `Prune` returns objects exactly if it runs as the relations say.
use operator_lib.Common.{
  returned_inj, ok_inj, List, [], Option, none, some, returned, bind-returned, Result, ok, err, ◌≡◌,
  refl, sym, ap, ◌∙◌, ◌↔◌,
}
use operator_lib.Prune.Registry.{Object, Error}
use operator_lib.Prune.Pruner.{
  Pruner, Labels, collect, delete_all, prune_selected, prune_collected, prune_listed, prune,
}
use operator_lib.Prune.Pruner.Relation.{Offers, Prunes}
use mathlib.Core.Path.{subst}
use operator_lib.Prune.Pruner.Steps.{
  collect-Offers, Offers-collect, delete_all-Deletes, Deletes-delete_all,
}

module _ {World Selector : Type 0} (p : Pruner World Selector) where
  selected_lem :
      (listed w' : World) (r : Result Error (List Object)) (pruned : List Object)
      → prune_selected p listed r ≡ (w', ok pruned)
      → (r ≡ ok pruned) × (delete_all p.client pruned listed ≡ (w', none))
  unfolding prune_selected
  selected_lem listed w' (err e) pruned h = cc
  selected_lem listed w' (ok objs) pruned h = go (delete_all p.client objs listed) refl h
    where
      outcome : World × Option Error → World × Result Error (List Object)
      outcome d = (d.0, elim d.1 [ none ↦ ok objs | some e ↦ err e ])

      go :
          (d : World × Option Error)
          → delete_all p.client objs listed ≡ d
          → outcome d ≡ (w', ok pruned)
          → (◌≡◌ {A = Result Error (List Object)} (ok objs) (ok pruned))
            × (delete_all p.client pruned listed ≡ (w', none))
      go (u, some e) hd h = cc
      go (u, none) hd h =
          (ap (λ x. x.1) h, rw⁻¹ (ok_inj (ap (λ x. x.1) h)) (hd ∙ ap (λ x. (x.0, none)) h))

  prune-Prunes :
      (as_selector : Labels → Selector) (w w' : World) (pruned : List Object)
      → prune as_selector p w ≡ returned (w', ok pruned)
      → Prunes as_selector p w w' pruned
  unfolding prune prune_listed prune_collected
  prune-Prunes as_selector w w' pruned h = go _ refl h
    where
      collected :
          (listed : World) (r : Result Error (List Object))
          → prune_collected p listed r ≡ returned (w', ok pruned)
          → (offered : List Object) × (r ≡ ok offered)
            × (p.strategy offered ≡ returned (ok pruned))
            × (delete_all p.client pruned listed ≡ (w', none))
      collected listed (err e) h = cc
      collected listed (ok offered) h =
          let (s, hs, hd) =
            bind-returned (p.strategy offered) (λ r. returned (prune_selected p listed r)) _ h in
          let (same, deleted) = selected_lem listed w' s pruned (returned_inj hd) in
          (offered, refl, hs ∙ ap returned same, deleted)

      go :
          (l : World × Result Error (List Object))
          → p.client.list p.gvk
              (record { label_selector = as_selector p.labels; namespace = p.namespace })
              w
            ≡ l
          → prune_listed p l ≡ returned (w', ok pruned)
          → Prunes as_selector p w w' pruned
      go (listed, err e) hl h = cc
      go (listed, ok items) hl h =
          let (r, hr, hk) = bind-returned (collect p items []) (prune_collected p listed) _ h in
          let (offered, hok, selects, hd) = collected listed r hk in
          let (offered', offers, same) = collect-Offers p items [] offered (hr ∙ ap returned hok) in
          record {
            listed = listed;
            items = items;
            offered = offered;
            lists = hl;
            offers = subst (Offers p items) (sym same) offers;
            selects = selects;
            deletes = delete_all-Deletes p pruned listed w' hd;
          }

  Prunes-prune :
      (as_selector : Labels → Selector) (w w' : World) (pruned : List Object)
      → Prunes as_selector p w w' pruned
      → prune as_selector p w ≡ returned (w', ok pruned)
  unfolding prune prune_listed prune_collected prune_selected
  Prunes-prune as_selector w w' pruned r =
      rw
        (
          r.lists,
          Offers-collect p r.items [] r.offered r.offers,
          r.selects,
          Deletes-delete_all p pruned r.listed w' r.deletes,
        )
        refl

-- `Prune` returns `pruned` in a world exactly if the listing answers, `pruned` is what the strategy
-- selects of the prunable objects listed, and every one of `pruned` has been deleted, in order.
pub prune_iff :
    {World Selector : Type 0} (as_selector : Labels → Selector) (p : Pruner World Selector)
    (w w' : World) (pruned : List Object)
    → (prune as_selector p w ≡ returned (w', ok pruned)) ↔ Prunes as_selector p w w' pruned
prune_iff as_selector p w w' pruned =
    (prune-Prunes p as_selector w w' pruned, Prunes-prune p as_selector w w' pruned)
