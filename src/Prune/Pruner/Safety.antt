-- ===== src/Prune/Pruner/Safety.antt =====
-- What no run of `Prune` deletes, on any branch.
use operator_lib.Common.{
  returned_inj, ok_inj, List, [], ◌∷◌, Option, none, some, Outcome, returned, panicked,
  bind-returned, Result, ok, err, All, ◌≡◌, refl, sym, ap, ◌∙◌, Bool, true, false, ◌&&◌, ◌==◌,
  ==_refl,
}
use operator_lib.Objects.{gvk_eq}
use operator_lib.Prune.Registry.{Object, Error, is_prunable, wrapped}
use operator_lib.Prune.Strategies.{StrategyFunc}
use operator_lib.Prune.Pruner.{
  Pruner, Labels, ListOptions, convert, convert_to, set_kind, collect, delete_all, prune_selected,
  prune_collected, prune_listed, prune,
}
use operator_lib.Prune.Pruner.Relation.{Offers}
use operator_lib.Prune.Pruner.Steps.{collect-Offers}
use mathlib.Core.Path.{subst}
use mathlib.Core.Logic.{∥∥₁_elim}
use mathlib.Core.Bool.{Bool-set}
use mathlib.Core.List.{Mem, Memᴰ, mem-cons_self, mem-cons_of_mem}

-- The verdict of a registry that raises no objection.
abbrev pub allowed : Outcome (Option Error) → Bool
allowed (returned none) = true
allowed (returned (some e)) = false
allowed panicked = false

-- An object of the pruner's kind that its registry calls prunable.
abbrev pub Allowed : {World Selector : Type 0} → Pruner World Selector → Object → Type 0
Allowed p obj = (allowed (is_prunable p.registry obj) && (obj.group_version_kind == p.gvk)) ≡ true

-- The strategy selects among the objects that it is given.
abbrev pub SelectsAmong : StrategyFunc → Type 0
SelectsAmong strategy =
    (objs pruned : List Object)
    → strategy objs ≡ returned (ok pruned)
    → (obj : Object) → Mem obj pruned
    → Mem obj objs

module _ {ℓ κ} {A : Type ℓ} (P : A → Type κ) where
  All-of_mem : (xs : List A) → ((x : A) → Mem x xs → P x) → All P xs
  All-of_mem [] h = tt
  All-of_mem (x ∷ xs) h = (h x mem-cons_self, All-of_mem xs (λ y m. h y (mem-cons_of_mem x m)))

  mem-All : ((x : A) → IsProp (P x)) → (x : A) (xs : List A) → Mem x xs → All P xs → P x
  mem-All prop x xs m all = ∥∥₁_elim m (prop x) (λ d. go xs d all)
    where
      go : (xs : List A) → Memᴰ x xs → All P xs → P x
      go [] m all = elim m [ ]
      go (y ∷ ys) (Memᴰ.head e) (h, hs) = subst P (sym e) h
      go (y ∷ ys) (Memᴰ.tail d) (h, hs) = go ys d hs

module _ {World Selector : Type 0} (p : Pruner World Selector) where
  convert-kind :
      (item obj : Object)
      → convert p.client p.gvk item ≡ returned (ok obj)
      → (obj.group_version_kind == p.gvk) ≡ true
  unfolding convert convert_to set_kind
  convert-kind item obj h = go (p.client.new p.gvk) h
    where
      converted :
          (r : Result Error Object)
          → set_kind p.gvk r ≡ ok obj
          → (obj.group_version_kind == p.gvk) ≡ true
      converted (err e) h = cc
      converted (ok o) h = rw (← ok_inj h) (==_refl p.gvk)

      go :
          (r : Result Error (Option Object))
          → convert_to p.client p.gvk item r ≡ returned (ok obj)
          → (obj.group_version_kind == p.gvk) ≡ true
      go (err e) h = cc
      go (ok none) h = cc
      go (ok (some obj2)) h = converted (p.client.convert_into item obj2) (returned_inj h)

  pub Offers-Allowed :
      (items offered : List Object) → Offers p items offered → All (Allowed p) offered
  Offers-Allowed items offered Offers.done = tt
  Offers-Allowed (item ∷ items) offered (Offers.skip e hc he hu rest) =
      Offers-Allowed items offered rest
  Offers-Allowed (item ∷ items) (obj ∷ offered) (Offers.offer hc he rest) =
      (rw (he, convert-kind item obj hc) refl, Offers-Allowed items offered rest)

  module _ {κ} (Inv : World → Type κ)
      (deletes : (obj : Object) (w : World)
        → Allowed p obj
        → Inv w
        → Inv (p.client.delete obj w).0) where
    delete_all-keeps :
        (objs : List Object) (w : World)
        → All (Allowed p) objs
        → Inv w
        → Inv (delete_all p.client objs w).0
    unfolding delete_all
    delete_all-keeps [] w all inv = inv
    delete_all-keeps (obj ∷ objs) w (h, hs) inv =
        go (p.client.delete obj w) (deletes obj w h inv) (λ w'. delete_all-keeps objs w' hs)
      where
        go :
            (d : World × Option Error)
            → Inv d.0
            → ((w' : World) → Inv w' → Inv (delete_all p.client objs w').0)
            → Inv
                (elim d.1 as (λ _. World × Option Error) [
                  | some e ↦ (d.0, some (wrapped "error pruning object: " e))
                  | none ↦ delete_all p.client objs d.0
                ]).0
        go (w', none) inv rest = rest w' inv
        go (w', some e) inv rest = inv

    prune_selected-keeps :
        (listed : World) (r : Result Error (List Object))
        → ((pruned : List Object) → r ≡ ok pruned → All (Allowed p) pruned)
        → Inv listed
        → Inv (prune_selected p listed r).0
    unfolding prune_selected
    prune_selected-keeps listed (err e) all inv = inv
    prune_selected-keeps listed (ok pruned) all inv =
        delete_all-keeps pruned listed (all pruned refl) inv

-- Whatever holds of the world, and is kept by a listing and by a deletion of an object that has the
-- pruner's kind and that its registry calls prunable, holds after `Prune`, an error included. (The
-- strategy selects among the objects that it is given.)
pub prune-keeps :
    {World Selector : Type 0} (as_selector : Labels → Selector) (p : Pruner World Selector)
    (Inv : World → Type 0)
    → SelectsAmong p.strategy
    → ((opts : ListOptions Selector) (w : World) → Inv w → Inv (p.client.list p.gvk opts w).0)
    → ((obj : Object) (w : World) → Allowed p obj → Inv w → Inv (p.client.delete obj w).0)
    → (w w' : World) (r : Result Error (List Object)) → prune as_selector p w ≡ returned (w', r)
    → Inv w
    → Inv w'
unfolding prune prune_listed prune_collected
prune-keeps {World} as_selector p Inv selects lists deletes w w' r h inv =
    go
      (p.client.list p.gvk
        (record { label_selector = as_selector p.labels; namespace = p.namespace }) w)
      h (lists (record { label_selector = as_selector p.labels; namespace = p.namespace }) w inv)
  where
    collected :
        (listed : World) (items : List Object) (c : Result Error (List Object))
        → collect p items [] ≡ returned c
        → prune_collected p listed c ≡ returned (w', r)
        → Inv listed
        → Inv w'
    collected listed items (err e) hc h inv = subst Inv (ap (λ x. x.0) (returned_inj h)) inv
    collected listed items (ok offered) hc h inv =
        let (s, hs, hd) =
          bind-returned (p.strategy offered) (λ r. returned (prune_selected p listed r)) _ h in
        let (offered', offers, same) = collect-Offers p items [] offered hc in
        let of_offered =
          subst (All (Allowed p)) (sym same) (Offers-Allowed p items offered' offers) in
        subst Inv (ap (λ x. x.0) (returned_inj hd)) (
          prune_selected-keeps p Inv deletes listed s
            (λ pruned e. All-of_mem (Allowed p) pruned (λ obj m.
              mem-All (Allowed p) (λ o. Bool-set _ _) obj offered
                (selects offered pruned (hs ∙ ap returned e) obj m) of_offered))
            inv)

    go :
        (l : World × Result Error (List Object))
        → prune_listed p l ≡ returned (w', r)
        → Inv l.0
        → Inv w'
    go (listed, err e) h inv = subst Inv (ap (λ x. x.0) (returned_inj h)) inv
    go (listed, ok items) h inv =
        let (c, hc, hk) = bind-returned (collect p items []) (prune_collected p listed) _ h in
        collected listed items c hc hk inv
