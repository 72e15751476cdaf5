-- ===== src/Progress/Scan.antt =====
-- The next boundary of the path, against a description by indices.
use px4_dxp.Prelude.{
  ℕ, zero, suc, ◌+◌, ◌-◌, ◌<◌, ◌≤◌, ◌≡◌, ◌≢◌, refl, Bool, true, false, Option, none, some, List, [],
  ◌∷◌, ℤ, arith, sym, ◌∙◌, ap, length, get_elem?, drop, get_elem?-drop, get_elem?-in, length-drop,
  none-out, Bool-cases, inl, inr,
}
use native.Mathlib.Decide.{dec_le}
use px4_dxp.Progress.{
  Boundary, mark_start, mark_end, reached_end, differs, scan, clamp_index, ahead, boundary_at,
  boundary_from, next_mark_boundary,
}

abbrev found : ℕ → Option Bool → Option (ℕ × Bool)
found j none = none
found j (some b) = some (j, b)

-- Where the loop stops: at the first mark that is not `cur`, or behind the last.
record Stop (cur : Bool) (j : ℕ) (marks : List Bool) : Type 0 where
  at : ℕ
  inside : at ≤ length marks
  same : (k : ℕ) → k < at → get_elem? marks k ≡ some cur
  other : get_elem? marks at ≢ some cur
  result : scan cur j marks ≡ found (j + at) (get_elem? marks at)

same_cons :
    (cur m : Bool) (marks : List Bool) (at : ℕ)
    → differs m cur ≡ false
    → ((k : ℕ) → k < at → get_elem? marks k ≡ some cur)
    → (k : ℕ) → k < suc at
    → get_elem? (m ∷ marks) k ≡ some cur
same_cons cur m marks at d same zero h = ground arith
same_cons cur m marks at d same (suc k) h = same k (omega arith)

scan-Stop : (cur : Bool) (j : ℕ) (marks : List Bool) → Stop cur j marks
unfolding scan
scan-Stop cur j [] = record {
  at = 0;
  inside = omega arith;
  same = λ k h. ground arith;
  other = λ e. ground arith;
  result = refl;
}
scan-Stop cur j (m ∷ marks) =
    let r = scan-Stop cur (suc j) marks in
    elim (Bool-cases (differs m cur)) [
      | inl d ↦ record {
        at = 0;
        inside = omega arith;
        same = λ k h. ground arith;
        other = λ e. ground arith;
        result = ground arith;
      }
      | inr d ↦ record {
        at = suc r.at;
        inside = omega (arith, r.inside);
        same = same_cons cur m marks r.at d r.same;
        other = r.other;
        result =
            rw d (
              r.result ∙ ap (λ i. found i (get_elem? marks r.at)) {x = suc j + r.at} (omega arith));
      }
    ]

drop-cons :
    {A : Type 0} (i : ℕ) (xs : List A)
    → i < length xs
    → (x : A) × (ys : List A) × (drop i xs ≡ x ∷ ys)
drop-cons i [] h = absurd (omega arith)
drop-cons zero (x ∷ xs) h = (x, xs, refl)
drop-cons (suc i) (x ∷ xs) h = drop-cons i xs (omega arith)

-- What a list holds from the head of what is dropped on.
record Tail {A : Type 0} (i : ℕ) (xs : List A) (x : A) (ys : List A) : Type 0 where
  head : get_elem? xs i ≡ some x
  rest : (k : ℕ) → get_elem? xs (suc i + k) ≡ get_elem? ys k
  size : length xs ≡ suc i + length ys

drop-Tail :
    {A : Type 0} (i : ℕ) (xs : List A) (x : A) (ys : List A)
    → drop i xs ≡ x ∷ ys
    → i < length xs
    → Tail i xs x ys
drop-Tail i xs x ys e h = record {
  head =
      ap (get_elem? xs) {y = i + 0} (omega arith)
      ∙ sym (get_elem?-drop i 0 xs)
      ∙ ap (λ zs. get_elem? zs 0) e;
  rest = λ k.
      ap (get_elem? xs) {y = i + suc k} (omega arith)
      ∙ sym (get_elem?-drop i (suc k) xs)
      ∙ ap (λ zs. get_elem? zs (suc k)) e;
  size = omega (arith, sym (length-drop i xs) ∙ ap length e);
}

abbrev pub name_of : Option Bool → Boundary
name_of none = reached_end
name_of (some true) = mark_start
name_of (some false) = mark_end

-- The first index behind `i` whose mark is not the one at `i`, or the end of the marks.
pub record IsEdge (seg_mark : List Bool) (i edge : ℕ) : Type 0 where
  pub after : i < edge
  pub inside : edge ≤ length seg_mark
  pub same : (k : ℕ) → i ≤ k → k < edge → get_elem? seg_mark k ≡ get_elem? seg_mark i
  pub other : get_elem? seg_mark edge ≢ get_elem? seg_mark i

edge_same :
    {i : ℕ} {seg_mark marks : List Bool} {cur : Bool} {at : ℕ}
    → Tail i seg_mark cur marks
    → ((k : ℕ) → k < at → get_elem? marks k ≡ some cur)
    → (k : ℕ) → i ≤ k
    → k < suc i + at
    → get_elem? seg_mark k ≡ get_elem? seg_mark i
edge_same {i} {seg_mark} t same k le lt = elim (dec_le k i) [
  | yes p ↦ ap (get_elem? seg_mark) (omega arith)
  | no p ↦
      ap (get_elem? seg_mark) {y = suc i + (k - suc i)} (omega arith)
      ∙ t.rest (k - suc i)
      ∙ same (k - suc i) (omega arith)
      ∙ sym t.head
]

Stop-IsEdge :
    (i : ℕ) (seg_mark marks : List Bool) (cur : Bool)
    → Tail i seg_mark cur marks
    → (r : Stop cur (suc i) marks) → IsEdge seg_mark i (suc i + r.at)
Stop-IsEdge i seg_mark marks cur t r = record {
  after = omega arith;
  inside = omega (arith, r.inside, t.size);
  same = edge_same t r.same;
  other = λ e. r.other (sym (t.rest r.at) ∙ e ∙ t.head);
}

boundary_found :
    (cum_s : List ℕ) (along_s edge c : ℕ) (o : Option Bool)
    → get_elem? cum_s edge ≡ some c
    → (o ≡ none → edge ≡ length cum_s - 1)
    → boundary_at cum_s along_s (found edge o) ≡ some (c - along_s, name_of o)
boundary_found cum_s along_s edge c (some true) h e = rw (boundary_at, ahead, h) refl
boundary_found cum_s along_s edge c (some false) h e = rw (boundary_at, ahead, h) refl
boundary_found cum_s along_s edge c none h e = rw (sym (e refl), ahead, h) refl

-- The answer of `next_mark_boundary`: the distance to the edge, and what begins there.
pub record Answer (seg_mark : List Bool) (cum_s : List ℕ) (i along_s dist : ℕ) (name : Boundary)
    : Type 0 where
  pub edge : ℕ
  pub start : ℕ
  pub is_edge : IsEdge seg_mark i edge
  pub at : get_elem? cum_s edge ≡ some start
  pub distance : dist ≡ start - along_s
  pub kind : name ≡ name_of (get_elem? seg_mark edge)

boundary_from-Answer :
    (i : ℕ) (seg_mark marks : List Bool) (cur : Bool) (cum_s : List ℕ) (along_s c : ℕ)
    → drop i seg_mark ≡ cur ∷ marks
    → Tail i seg_mark cur marks
    → length cum_s ≡ suc (length seg_mark)
    → (r : Stop cur (suc i) marks) → get_elem? cum_s (suc i + r.at) ≡ some c
    → (boundary_from seg_mark cum_s i along_s
        ≡ some (c - along_s, name_of (get_elem? seg_mark (suc i + r.at))))
      × Answer seg_mark cum_s i along_s (c - along_s) (name_of (get_elem? seg_mark (suc i + r.at)))
unfolding boundary_from
boundary_from-Answer i seg_mark marks cur cum_s along_s c d t n r h =
    let last : get_elem? marks r.at ≡ none → suc i + r.at ≡ length cum_s - 1 =
      λ e. omega (arith, n, t.size, r.inside, none-out r.at marks e) in
    (
      rw (boundary_from, d, r.result)
          (boundary_found cum_s along_s (suc i + r.at) c (get_elem? marks r.at) h last
            ∙ ap (λ o. some (c - along_s, name_of o)) (sym (t.rest r.at))),
      record {
        edge = suc i + r.at;
        start = c;
        is_edge = Stop-IsEdge i seg_mark marks cur t r;
        at = h;
        distance = refl;
        kind = refl;
      },
    )

-- On a path with a cumulative length for each vertex, the scan never leaves the list: its answer
-- is the distance along the path to the first index behind the current segment at which painting
-- starts or stops, named by what starts there, or to the end of the path when nothing changes.
pub next_mark_boundary-Answer :
    (seg_mark : List Bool) (cum_s : List ℕ) (seg_idx : ℤ) (along_s : ℕ)
    → 0 < length seg_mark
    → length cum_s ≡ suc (length seg_mark)
    → (dist : ℕ) × (name : Boundary) × (next_mark_boundary seg_mark cum_s seg_idx along_s
        ≡ some (dist, name))
      × Answer seg_mark cum_s (clamp_index seg_idx (length seg_mark)) along_s dist name
unfolding next_mark_boundary
next_mark_boundary-Answer seg_mark cum_s seg_idx along_s h n =
    let i = clamp_index seg_idx (length seg_mark) in
    let (cur, marks, d) = drop-cons i seg_mark (omega arith) in
    let t = drop-Tail i seg_mark cur marks d (omega arith) in
    let r = scan-Stop cur (suc i) marks in
    let (c, e) = get_elem?-in (suc i + r.at) cum_s (omega (arith, n, t.size, r.inside)) in
    let (q, a) = boundary_from-Answer i seg_mark marks cur cum_s along_s c d t n r e in
    (c - along_s, name_of (get_elem? seg_mark (suc i + r.at)), ground (arith, q), a)
