-- ===== src/EntityOrder/Order.antt =====
-- The order of the result, and that no entity is lost or doubled.
use px4_dxp.Prelude.{
  ◌≡◌, refl, arith, sym, ap, subst, ◌∙◌, ◌⊎◌, ◌↔◌, ℕ, true, false, none, some, List, [], ◌∷◌, ◌++◌,
  map, ◌==◌, if◌then◌else◌, if-cases, Bool-cases, inl, inr,
}
use px4_dxp.EntityOrder.{mem, by_id, append_rest, follow_saved, apply_entity_order}

-- Every number once, where it comes first, without those that are used.
pub first_of_each : List ℕ → List ℕ → List ℕ
first_of_each used [] = []
first_of_each used (k ∷ ks) =
    let skipped = first_of_each used ks in
    let taken = first_of_each (k ∷ used) ks in if mem k used then skipped else k ∷ taken

-- The numbers that a list knows.
pub known : List ℕ → List ℕ → List ℕ
known ids [] = []
known ids (k ∷ ks) = let rest = known ids ks in if mem k ids then k ∷ rest else rest

abbrev pub In : {A : Type 0} → A → List A → Type 0
In x [] = ⊥
In x (y ∷ ys) = (y ≡ x) ⊎ In x ys

abbrev pub AreDistinct : List ℕ → Type 0
AreDistinct [] = Unit
AreDistinct (k ∷ ks) = (mem k ks ≡ false) × AreDistinct ks

mem_cons : (k j : ℕ) (js : List ℕ) → mem k js ≡ true → mem k (j ∷ js) ≡ true
mem_cons k j js m = ground arith

mem_head : (k : ℕ) (js : List ℕ) → mem k (k ∷ js) ≡ true
mem_head k js = ground arith

mem_append : (k : ℕ) (is js : List ℕ) → mem k js ≡ true → mem k (is ++ js) ≡ true
mem_append k [] js m = m
mem_append k (i ∷ is) js m = mem_cons k i (is ++ js) (mem_append k is js m)

first_of_each-fresh :
    (k : ℕ) (used ks : List ℕ) → mem k used ≡ true → mem k (first_of_each used ks) ≡ false
unfolding first_of_each
first_of_each-fresh k used [] m = refl
first_of_each-fresh k used (j ∷ ks) m = ground (
  arith,
  first_of_each-fresh k used ks m,
  first_of_each-fresh k (j ∷ used) ks (mem_cons k j used m),
)

first_of_each-AreDistinct : (used ks : List ℕ) → AreDistinct (first_of_each used ks)
unfolding first_of_each
first_of_each-AreDistinct used [] = tt
first_of_each-AreDistinct used (k ∷ ks) =
    if-cases AreDistinct (mem k used) (λ _. first_of_each-AreDistinct used ks)
      (λ _. (
        first_of_each-fresh k (k ∷ used) ks (mem_head k used),
        first_of_each-AreDistinct (k ∷ used) ks,
      ))

first_of_each-keeps :
    (k : ℕ) (used ks : List ℕ)
    → mem k ks ≡ true
    → mem k used ≡ false
    → mem k (first_of_each used ks) ≡ true
unfolding first_of_each
first_of_each-keeps k used [] m n = absurd (ground arith)
first_of_each-keeps k used (j ∷ ks) m n = elim (Bool-cases (j == k)) [
  | inl e ↦ ground arith
  | inr e ↦
      let later : mem k ks ≡ true = ground arith in
      let unused : mem k (j ∷ used) ≡ false = ground arith in
      ground (
        arith,
        first_of_each-keeps k used ks later n,
        first_of_each-keeps k (j ∷ used) ks later unused,
      )
]

module _ {A : Type 0} (entity_id : A → ℕ) where
  by_id-cases :
      (k : ℕ) (es : List A)
      → ((by_id entity_id k es ≡ none) × (mem k (map entity_id es) ≡ false))
        ⊎ ((e : A) × ((by_id entity_id k es ≡ some e)
              × ((entity_id e ≡ k) × (In e es × (mem k (map entity_id es) ≡ true)))))
  unfolding by_id
  by_id-cases k [] = inl (refl, refl)
  by_id-cases k (e ∷ es) = elim (by_id-cases k es) [
    | inr (x, (p, (q, (i, m)))) ↦
        inr (x, (rw p, (q, (inr i, mem_cons k (entity_id e) (map entity_id es) m))))
    | inl (p, q) ↦ elim (Bool-cases (entity_id e == k)) [
      | inl t ↦ inr (e, (rw (p, t), (ground arith, (inl refl, ground arith))))
      | inr t ↦ inl (rw (p, t), ground arith)
    ]
  ]

  append_rest-ids :
      (used : List ℕ) (es : List A)
      → map entity_id (append_rest entity_id used es) ≡ first_of_each used (map entity_id es)
  unfolding append_rest first_of_each
  append_rest-ids used [] = refl
  append_rest-ids used (e ∷ es) =
      ground (arith, append_rest-ids used es, append_rest-ids (entity_id e ∷ used) es)

  follow_saved-ids :
      (es : List A) (used ks : List ℕ)
      → map entity_id (follow_saved entity_id es used ks)
        ≡ first_of_each used (known (map entity_id es) ks ++ map entity_id es)
  unfolding follow_saved first_of_each known
  follow_saved-ids es used [] = append_rest-ids used es
  follow_saved-ids es used (k ∷ ks) = elim (by_id-cases k es) [
    | inl (p, m) ↦ rw (follow_saved, p, m) (follow_saved-ids es used ks)
    | inr (e, (p, (q, (i, m)))) ↦
        rw (follow_saved, p, m)
          (ground (arith, q, follow_saved-ids es used ks, follow_saved-ids es (k ∷ used) ks))
  ]

  -- With a saved order the ids of the result are the saved ids that the drawing has, and then the
  -- ids of the drawing, each where it comes first: the saved order leads, what it does not name
  -- follows in the order of the parser, saved ids without an entity are left out, and no id comes
  -- twice.
  pub apply_entity_order-ids :
      (es : List A) (k : ℕ) (ks : List ℕ)
      → (map entity_id (apply_entity_order entity_id es (k ∷ ks))
          ≡ first_of_each [] (known (map entity_id es) (k ∷ ks) ++ map entity_id es))
        × AreDistinct (map entity_id (apply_entity_order entity_id es (k ∷ ks)))
  unfolding apply_entity_order
  apply_entity_order-ids es k ks =
      let e = follow_saved-ids es [] (k ∷ ks) in
      (
        e,
        subst AreDistinct (sym e)
            (first_of_each-AreDistinct [] (known (map entity_id es) (k ∷ ks) ++ map entity_id es)),
      )

  append_rest-In :
      (used : List ℕ) (es : List A) (x : A) → In x (append_rest entity_id used es) → In x es
  unfolding append_rest
  append_rest-In used [] x = λ i. i
  append_rest-In used (e ∷ es) x =
      if-cases (λ (r : List A). In x r → In x (e ∷ es)) (mem (entity_id e) used)
        (λ _ i. inr (append_rest-In used es x i))
        (λ _ i. elim i [ inl q ↦ inl q | inr j ↦ inr (append_rest-In (entity_id e ∷ used) es x j) ])

  follow_saved-In :
      (es : List A) (used ks : List ℕ) (x : A) → In x (follow_saved entity_id es used ks) → In x es
  unfolding follow_saved
  follow_saved-In es used [] x = append_rest-In used es x
  follow_saved-In es used (k ∷ ks) x = elim (by_id-cases k es) [
    | inl (p, m) ↦ rw (follow_saved, p) (follow_saved-In es used ks x)
    | inr (e, (p, (q, (j, m)))) ↦
        rw (follow_saved, p)
          (if-cases (λ (r : List A). In x r → In x es) (mem k used)
            (λ _. follow_saved-In es used ks x)
            (λ _ i. elim i [
              | inl t ↦ subst (λ y. In y es) t j
              | inr u ↦ follow_saved-In es (k ∷ used) ks x u
            ]))
  ]

  In-mem : (x : A) (es : List A) → In x es → mem (entity_id x) (map entity_id es) ≡ true
  In-mem x [] i = absurd i
  In-mem x (e ∷ es) (inl q) = let h = ap entity_id q in ground arith
  In-mem x (e ∷ es) (inr i) =
      mem_cons (entity_id x) (entity_id e) (map entity_id es) (In-mem x es i)

  mem-In :
      (k : ℕ) (es : List A)
      → mem k (map entity_id es) ≡ true
      → (x : A) × (In x es × (entity_id x ≡ k))
  mem-In k [] m = absurd (ground arith)
  mem-In k (e ∷ es) m = elim (Bool-cases (entity_id e == k)) [
    | inl t ↦ (e, (inl refl, ground arith))
    | inr t ↦ let (x, (i, q)) = mem-In k es (ground arith) in (x, (inr i, q))
  ]

  clash :
      (es : List A) (a b : A)
      → entity_id a ≡ entity_id b
      → mem (entity_id a) (map entity_id es) ≡ false
      → ¬ (mem (entity_id b) (map entity_id es) ≡ true)
  clash es a b q n m = ground arith

  In-unique :
      (es : List A) (x y : A)
      → AreDistinct (map entity_id es)
      → In x es
      → In y es
      → entity_id x ≡ entity_id y
      → x ≡ y
  In-unique [] x y d i j q = absurd i
  In-unique (e ∷ es) x y (n, d) (inl i) (inl j) q = sym i ∙ j
  In-unique (e ∷ es) x y (n, d) (inr i) (inr j) q = In-unique es x y d i j q
  In-unique (e ∷ es) x y (n, d) (inl i) (inr j) q =
      absurd (clash es e y (ap entity_id i ∙ q) n (In-mem y es j))
  In-unique (e ∷ es) x y (n, d) (inr i) (inl j) q =
      absurd (clash es e x (ap entity_id j ∙ sym q) n (In-mem x es i))

  mem-apply_entity_order :
      (es : List A) (ks : List ℕ) (j : ℕ) (x : A)
      → In x es
      → mem (entity_id x) (map entity_id (apply_entity_order entity_id es (j ∷ ks))) ≡ true
  mem-apply_entity_order es ks j x i =
      subst (λ is. mem (entity_id x) is ≡ true) (sym (apply_entity_order-ids es j ks).0)
        (first_of_each-keeps (entity_id x) []
          (known (map entity_id es) (j ∷ ks) ++ map entity_id es)
          (mem_append (entity_id x) (known (map entity_id es) (j ∷ ks)) (map entity_id es)
            (In-mem x es i))
          refl)

  -- When the ids of the drawing are distinct the result has the same entities as the drawing,
  -- whatever order was saved.
  pub apply_entity_order_complete :
      (es : List A) (ks : List ℕ) (x : A)
      → AreDistinct (map entity_id es)
      → In x (apply_entity_order entity_id es ks) ↔ In x es
  unfolding apply_entity_order
  apply_entity_order_complete es [] x d = ((λ i. i), (λ i. i))
  apply_entity_order_complete es (k ∷ ks) x d = (
    follow_saved-In es [] (k ∷ ks) x,
    λ i.
        let (y, (j, q)) =
          mem-In (entity_id x) (apply_entity_order entity_id es (k ∷ ks))
            (mem-apply_entity_order es ks k x i) in
        subst (λ z. In z (apply_entity_order entity_id es (k ∷ ks)))
          (In-unique es y x d (follow_saved-In es [] (k ∷ ks) y j) i q) j,
  )
