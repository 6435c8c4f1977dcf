-- ===== src/PaymentOrders/Rules/Grouping.antt =====
-- One payment order per property: what the groups hold, and in which order.
use slomp.Prelude.{
  Any, beq_refl, ◌≢◌, Any-of_get, Any-map_of_get, ℕ, ◌≡◌, refl, ap, none, some, get_or, List, [],
  ◌∷◌, ◌++◌, map, arith, filter, get, set, get-set, IsMap, set-IsMap, get_of_entries, nat_eq, ◌==◌,
  sym, All, All-map, All-mono,
}
use mathlib.Core.List.{append_assoc, append-nil}
use slomp.Prelude.Sorting.{
  sort_by, IsSorted, sort_by-IsSorted, IsSorted-map, All-sort_by, Any-sort_by,
}
use slomp.PaymentOrders.Rules.{OrderableSettlement, by_property, group_settlements_by_property}

-- The ids of a property, in the order of the request.
abbrev pub ids_of : ℕ → List OrderableSettlement → List ℕ
ids_of p ss = map (λ s. s.id) (filter (λ s. s.property_id == p) ss)

get-by_property :
    (m : List (ℕ × List ℕ)) (ss : List OrderableSettlement) (p : ℕ)
    → get_or (get (by_property m ss) p) [] ≡ get_or (get m p) [] ++ ids_of p ss
unfolding by_property
get-by_property m [] p = sym (append-nil _)
get-by_property m (s ∷ ss) p =
    let k = s.property_id in
    let v = get_or (get m k) [] ++ s.id ∷ [] in
    ground (
      arith,
      get-by_property (set m k v) ss p,
      get-set m k p v,
      append_assoc (get_or (get m k) []) (s.id ∷ []) (ids_of p ss),
    )

by_property-IsMap :
    (ss : List OrderableSettlement) (m : List (ℕ × List ℕ)) → IsMap m → IsMap (by_property m ss)
unfolding by_property
by_property-IsMap [] m h = h
by_property-IsMap (s ∷ ss) m h = by_property-IsMap ss _ (set-IsMap m s.property_id _ h)

-- The groups come in ascending order of their properties.
group_settlements_by_property-IsSorted :
    (ss : List OrderableSettlement)
    → IsSorted (λ g. g.property_id) (group_settlements_by_property ss)
unfolding group_settlements_by_property
group_settlements_by_property-IsSorted ss =
    IsSorted-map _ (λ g. g.property_id) (sort_by (λ g. g.0) (by_property [] ss))
      (sort_by-IsSorted (λ g. g.0) (by_property [] ss))

-- Every group lists the ids of the settlements of its property, all of them and in ascending order.
group_members :
    (ss : List OrderableSettlement)
    → All
        (λ g. g.settlement_ids ≡ sort_by (λ i. i) (ids_of g.property_id ss))
        (group_settlements_by_property ss)
unfolding group_settlements_by_property
group_members ss =
    let m = by_property [] ss in
    All-map _ _ (sort_by (λ g. g.0) m) (
      All-sort_by (λ g. g.0) (λ g. sort_by (λ i. i) g.1 ≡ sort_by (λ i. i) (ids_of g.0 ss)) m
        (All-mono (λ b. get m b.0 ≡ some b.1) _ m
          (λ b found.
            ap (sort_by (λ i. i)) {x = b.1} {y = ids_of b.0 ss}
              (ground (arith, get-by_property [] ss b.0)))
          (get_of_entries m (by_property-IsMap ss [] tt))))

ids_of-ne-nil :
    (before after : List OrderableSettlement) (s : OrderableSettlement)
    → ids_of s.property_id (before ++ s ∷ after) ≢ []
ids_of-ne-nil [] after s = ground (arith, beq_refl s.property_id)
ids_of-ne-nil (b ∷ before) after s = ground (arith, ids_of-ne-nil before after s)

-- Every settlement of the request has a group of its property.
group_covers :
    (before after : List OrderableSettlement) (s : OrderableSettlement)
    → Any (λ g. g.property_id ≡ s.property_id) (group_settlements_by_property (before ++ s ∷ after))
unfolding group_settlements_by_property
group_covers before after s =
    let ss = before ++ s ∷ after in
    let m = by_property [] ss in
    let known : get m s.property_id ≢ none = λ missing.
      ids_of-ne-nil before after s (ground (arith, get-by_property [] ss s.property_id)) in
    Any-map_of_get _ (λ g. g.property_id) (sort_by (λ g. g.0) m) s.property_id (λ b. refl)
      (Any-sort_by (λ g. g.0) (λ b. b.0 ≡ s.property_id) m (Any-of_get m s.property_id known))
