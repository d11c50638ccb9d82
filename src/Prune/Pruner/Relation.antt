-- ===== src/Prune/Pruner/Relation.antt =====
-- What a run of the pruner promises, step by step: which of the listed objects it offers to its
-- strategy, and how the world changes.
use operator_lib.Common.{List, [], ◌∷◌, Option, none, returned, ok, ◌≡◌, true}
use operator_lib.Prune.Registry.{Object, Error, is_unprunable, is_prunable}
use operator_lib.Prune.Pruner.{Client, Pruner, Labels, convert}

module _ {World Selector : Type 0} where
  -- The conversions of the prunable items, in order. An item that the registry calls unprunable is
  -- passed over.
  pub data Offers (p : Pruner World Selector) : List Object → List Object → Type 0 where
    done : Offers p [] []
    skip :
        {item obj : Object} {items objs : List Object} (e : Option Error)
        → convert p.client p.gvk item ≡ returned (ok obj)
        → is_prunable p.registry obj ≡ returned e
        → is_unprunable e ≡ true
        → Offers p items objs
        → Offers p (item ∷ items) objs
    offer :
        {item obj : Object} {items objs : List Object}
        → convert p.client p.gvk item ≡ returned (ok obj)
        → is_prunable p.registry obj ≡ returned none
        → Offers p items objs
        → Offers p (item ∷ items) (obj ∷ objs)

  -- Every one of the objects is deleted, in order, without an error.
  pub data Deletes (c : Client World Selector) : List Object → World → World → Type 0 where
    done : {w : World} → Deletes c [] w w
    delete :
        {obj : Object} {objs : List Object} {w w' w'' : World}
        → c.delete obj w ≡ (w', none)
        → Deletes c objs w' w''
        → Deletes c (obj ∷ objs) w w''

  -- A run of the pruner without an error, from a world to a world, that deletes `pruned`.
  pub record Prunes (as_selector : Labels → Selector) (p : Pruner World Selector) (w w' : World)
      (pruned : List Object) : Type 0 where
    pub listed : World
    pub items : List Object
    pub offered : List Object
    pub lists :
        p.client.list p.gvk
          (record { label_selector = as_selector p.labels; namespace = p.namespace })
          w
        ≡ (listed, ok items)
    pub offers : Offers p items offered
    pub selects : p.strategy offered ≡ returned (ok pruned)
    pub deletes : Deletes p.client pruned listed w'
