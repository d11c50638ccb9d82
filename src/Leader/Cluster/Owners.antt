-- ===== src/Leader/Cluster/Owners.antt =====
-- The one owner of a lock.
use operator_lib.Common.{
  String, Bool, true, false, ◌||◌, ◌≡◌, refl, List, [], ◌∷◌, ==_sound, ==_refl, string_eq, arith,
}
use operator_lib.Leader.Program.{OwnerReference, ConfigMap}
use operator_lib.Leader.Loop.{owned_by}

pub owned_by_single :
    (i : String) (cm : ConfigMap) (o : OwnerReference)
    → cm.owner_references ≡ o ∷ []
    → owned_by i cm.owner_references ≡ true
    → o.name ≡ i
unfolding owned_by
owned_by_single i cm o owners mine = ==_sound o.name i (or_false _ (rw owners at mine))
  where
    or_false : (b : Bool) → (b || false) ≡ true → b ≡ true
    or_false b h = ground arith

pub owner_owns :
    (cm : ConfigMap) (o : OwnerReference)
    → cm.owner_references ≡ o ∷ []
    → owned_by o.name cm.owner_references ≡ true
unfolding owned_by
owner_owns cm o owners = rw owners (rw (==_refl o.name) refl)

pub cons_inj : {o o' : OwnerReference} → ◌≡◌ {A = List OwnerReference} (o ∷ []) (o' ∷ []) → o ≡ o'
cons_inj e = cc
