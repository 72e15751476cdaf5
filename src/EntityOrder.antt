-- ===== src/EntityOrder.antt =====
-- path_engine/entity_order.py: the order in which the entities of a drawing are planned. The ids of
-- entities are numbers, as they are only compared; an entity is of any type with an id.
pub mod Order
mod Tests
use px4_dxp.Prelude.{ℕ, Bool, true, false, Option, none, some, List, [], ◌∷◌, ◌==◌, if◌then◌else◌}

-- `k in used`
abbrev pub mem : ℕ → List ℕ → Bool
mem k [] = false
mem k (j ∷ js) = if j == k then true else mem k js

module _ {A : Type 0} (entity_id : A → ℕ) where
  -- `by_id.get(k)`: of two entities with the same id the dictionary keeps the later one.
  unfoldable pub by_id : ℕ → List A → Option A
  by_id k [] = none
  by_id k (e ∷ es) = elim (by_id k es) [
    | some x ↦ some x
    | none ↦ if entity_id e == k then some e else none
  ]

  -- The second loop, on the entities that the saved order does not name.
  unfoldable pub append_rest : List ℕ → List A → List A
  append_rest used [] = []
  append_rest used (e ∷ es) =
      let skipped = append_rest used es in
      let taken = append_rest (entity_id e ∷ used) es in
      if mem (entity_id e) used then skipped else e ∷ taken

  -- The first loop, on the saved order, and the second one behind it.
  unfoldable pub follow_saved : List A → List ℕ → List ℕ → List A
  follow_saved entities used [] = append_rest used entities
  follow_saved entities used (k ∷ ks) =
      let skipped = follow_saved entities used ks in
      let taken = follow_saved entities (k ∷ used) ks in
      elim (by_id k entities) [
        | none ↦ skipped
        | some e ↦ if mem k used then skipped else e ∷ taken
      ]

  unfoldable pub apply_entity_order : List A → List ℕ → List A
  apply_entity_order entities [] = entities
  apply_entity_order entities (k ∷ ks) = follow_saved entities [] (k ∷ ks)
