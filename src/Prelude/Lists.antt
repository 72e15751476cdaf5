-- ===== src/Prelude/Lists.antt =====
-- Lists measured and indexed by native numbers, under the library's names.
use Prim.Native.Nat.{ℕ, zero, suc, ◌+◌, ◌-◌, ◌≤◌, ◌<◌}
use mathlib.Core.Path.{◌≡◌, refl, ap, ◌∙◌, subst}
use px4_dxp.Prelude.Tests.{some_inj}
use mathlib.Core.List.{map, List, [], ◌∷◌, ◌++◌}
use mathlib.Core.Logic.{◌⊎◌, inl, inr}
use mathlib.Core.Option.{Option, none, some}
use native.Mathlib.Omega.{arith}

module _ {ℓ} {A : Type ℓ} where
  abbrev pub length : List A → ℕ
  length [] = 0
  length (x ∷ xs) = suc (length xs)

  abbrev pub get_elem? : List A → ℕ → Option A
  get_elem? [] i = none
  get_elem? (x ∷ xs) zero = some x
  get_elem? (x ∷ xs) (suc i) = get_elem? xs i

  pub length-append : (xs ys : List A) → length (xs ++ ys) ≡ length xs + length ys
  length-append [] ys = omega arith
  length-append (x ∷ xs) ys = omega (arith, length-append xs ys)

  abbrev pub drop : ℕ → List A → List A
  drop zero xs = xs
  drop (suc n) [] = []
  drop (suc n) (x ∷ xs) = drop n xs

  pub get_elem?-drop : (i k : ℕ) (xs : List A) → get_elem? (drop i xs) k ≡ get_elem? xs (i + k)
  get_elem?-drop zero k xs = ap (get_elem? xs) (omega arith)
  get_elem?-drop (suc i) k [] = refl
  get_elem?-drop (suc i) k (x ∷ xs) =
      get_elem?-drop i k xs ∙ ap (get_elem? (x ∷ xs)) {x = suc (i + k)} (omega arith)

  pub get_elem?-out : (i : ℕ) (xs : List A) → length xs ≤ i → get_elem? xs i ≡ none
  get_elem?-out i [] h = refl
  get_elem?-out zero (x ∷ xs) h = absurd (omega arith)
  get_elem?-out (suc i) (x ∷ xs) h = get_elem?-out i xs (omega arith)

  pub get_elem?-in : (i : ℕ) (xs : List A) → i < length xs → (x : A) × (get_elem? xs i ≡ some x)
  get_elem?-in i [] h = absurd (omega arith)
  get_elem?-in zero (x ∷ xs) h = (x, refl)
  get_elem?-in (suc i) (x ∷ xs) h = get_elem?-in i xs (omega arith)

  pub length-drop : (i : ℕ) (xs : List A) → length (drop i xs) ≡ length xs - i
  length-drop zero xs = omega arith
  length-drop (suc i) [] = omega arith
  length-drop (suc i) (x ∷ xs) = omega (arith, length-drop i xs)

  pub none-out : (i : ℕ) (xs : List A) → get_elem? xs i ≡ none → length xs ≤ i
  none-out i [] h = omega arith
  none-out zero (x ∷ xs) h = absurd (ground arith)
  none-out (suc i) (x ∷ xs) h = omega (arith, none-out i xs h)

  pub append_assoc : (xs ys zs : List A) → (xs ++ ys) ++ zs ≡ xs ++ (ys ++ zs)
  append_assoc [] ys zs = refl
  append_assoc (x ∷ xs) ys zs = ap (x ∷◌) (append_assoc xs ys zs)

  pub append_nil : (xs : List A) → xs ++ [] ≡ xs
  append_nil [] = refl
  append_nil (x ∷ xs) = ap (x ∷◌) (append_nil xs)

  pub get_elem?-append_left :
      (i : ℕ) (xs ys : List A) → i < length xs → get_elem? (xs ++ ys) i ≡ get_elem? xs i
  get_elem?-append_left i [] ys h = absurd (omega arith)
  get_elem?-append_left zero (x ∷ xs) ys h = refl
  get_elem?-append_left (suc i) (x ∷ xs) ys h = get_elem?-append_left i xs ys (omega arith)

  pub get_elem?-append_last :
      (xs : List A) (y : A) → get_elem? (xs ++ (y ∷ [])) (length xs) ≡ some y
  get_elem?-append_last [] y = refl
  get_elem?-append_last (x ∷ xs) y = get_elem?-append_last xs y

  -- A property of each element of a list.
  abbrev pub All : (A → Type 0) → List A → Type 0
  All P [] = Unit
  All P (x ∷ xs) = P x × All P xs

  pub All-map : {P Q : A → Type 0} (xs : List A) → ((x : A) → P x → Q x) → All P xs → All Q xs
  All-map [] f a = tt
  All-map (x ∷ xs) f (p, a) = (f x p, All-map xs f a)

  pub All-append : (P : A → Type 0) (xs ys : List A) → All P xs → All P ys → All P (xs ++ ys)
  All-append P [] ys a b = b
  All-append P (x ∷ xs) ys (p, a) b = (p, All-append P xs ys a b)

  pub All-get :
      (P : A → Type 0) (i : ℕ) (xs : List A) (x : A) → get_elem? xs i ≡ some x → All P xs → P x
  All-get P i [] x h a = absurd (ground arith)
  All-get P zero (y ∷ xs) x h (p, a) = subst P (some_inj h) p
  All-get P (suc i) (y ∷ xs) x h (p, a) = All-get P i xs x h a

  -- An element of a list with one more at its end.
  pub get_elem?-snoc :
      (xs : List A) (y : A) (i : ℕ) (b : A)
      → get_elem? (xs ++ (y ∷ [])) i ≡ some b
      → ((i < length xs) × (get_elem? xs i ≡ some b)) ⊎ ((i ≡ length xs) × (y ≡ b))
  get_elem?-snoc [] y zero b h = inr (refl, some_inj h)
  get_elem?-snoc [] y (suc i) b h = absurd (ground arith)
  get_elem?-snoc (x ∷ xs) y zero b h = inl (omega arith, h)
  get_elem?-snoc (x ∷ xs) y (suc i) b h = elim (get_elem?-snoc xs y i b h) [
    | inl (l, e) ↦ inl (omega arith, e)
    | inr (l, e) ↦ inr (omega arith, e)
  ]

pub length-map : {A B : Type 0} (f : A → B) (xs : List A) → length (map f xs) ≡ length xs
length-map f [] = refl
length-map f (x ∷ xs) = omega (arith, length-map f xs)

-- What holds of both cases of a list holds of the value that depends on it.
pub List-elim {ℓ} :
    {A B : Type ℓ} (Q : B → Type 0) (xs : List A) {n : B} {g : A → List A → B}
    → (xs ≡ [] → Q n)
    → ((x : A) (ys : List A) → xs ≡ x ∷ ys → Q (g x ys))
    → Q (elim xs [ [] ↦ n | x ∷ ys ↦ g x ys ])
List-elim Q [] h k = h refl
List-elim Q (x ∷ xs) h k = k x xs refl
