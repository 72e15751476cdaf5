-- ===== src/EntityOrder/Tests.antt =====
-- The theorems about entity orders, on entities that are their ids with a label.
use px4_dxp.Prelude.{◌≡◌, ℕ, List, [], ◌∷◌, ◌++◌, map}
use px4_dxp.EntityOrder.{apply_entity_order}
use px4_dxp.EntityOrder.Order.{first_of_each, known, AreDistinct, apply_entity_order-ids}

abbrev id_of : ℕ × ℕ → ℕ
id_of e = e.0

abbrev drawing : List (ℕ × ℕ)
drawing = (1, 10) ∷ (2, 20) ∷ (3, 30) ∷ []

apply_entity_order-ids_example :
    (map id_of (apply_entity_order id_of drawing (3 ∷ 9 ∷ 3 ∷ 1 ∷ []))
      ≡ first_of_each [] (known (map id_of drawing) (3 ∷ 9 ∷ 3 ∷ 1 ∷ []) ++ map id_of drawing))
    × AreDistinct (map id_of (apply_entity_order id_of drawing (3 ∷ 9 ∷ 3 ∷ 1 ∷ [])))
apply_entity_order-ids_example = apply_entity_order-ids id_of drawing 3 (9 ∷ 3 ∷ 1 ∷ [])
