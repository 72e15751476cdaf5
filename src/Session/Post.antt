-- ===== src/Session/Post.antt =====
-- A logic for the outcomes of the parser: what a result satisfies, and what an OverflowError shows.
use Prim.Native.String.{String}
use text.Mathlib.Text.{◌==◌ as str_eq}
use px4_dxp.Prelude.{
  Bool, true, ◌⊎◌, some_inj, ◌∙◌, Option-cases, false, ◌≡◌, refl, sym, subst, arith, List, [], ◌∷◌,
  some, Bool-cases, inl, inr,
}
use px4_dxp.Session.Json.{
  Value, null, huge, bool, num, str, array, dict, Elements, no_elements, element, Members,
  no_members, member, to_list, get, get_or, Outcome, ok, schema_error, overflow_error, check, ◌>>=◌,
}
use px4_dxp.Session.Config.{mode_of, start_state_of, as_list, as_dict, required}

-- An integer beyond the range of floats, anywhere in a value.
unfoldable mutual
  pub HasHuge : Value → Type 0
  HasHuge null = ⊥
  HasHuge (huge z) = Unit
  HasHuge (bool b) = ⊥
  HasHuge (num x) = ⊥
  HasHuge (str s) = ⊥
  HasHuge (array vs) = ItemsHaveHuge vs
  HasHuge (dict fs) = FieldsHaveHuge fs

  pub ItemsHaveHuge : Elements → Type 0
  ItemsHaveHuge no_elements = ⊥
  ItemsHaveHuge (element v vs) = HasHuge v ⊎ ItemsHaveHuge vs

  pub FieldsHaveHuge : Members → Type 0
  FieldsHaveHuge no_members = ⊥
  FieldsHaveHuge (member k v fs) = HasHuge v ⊎ FieldsHaveHuge fs

-- What holds of a result, and what an OverflowError shows.
pub data Post {A : Type 0} (P : A → Type 0) (H : Type 0) : Outcome A → Type 0 where
  done : {a : A} → P a → Post P H (ok a)
  refused : Post P H schema_error
  overflowed : H → Post P H overflow_error

module _ {A B : Type 0} {P : A → Type 0} {Q : B → Type 0} {H : Type 0} where
  pub Post-bind :
      {m : Outcome A} {f : A → Outcome B}
      → Post P H m
      → ((a : A) → P a → Post Q H (f a))
      → Post Q H (m >>= f)
  Post-bind (done {a} p) k = k a p
  Post-bind refused k = refused
  Post-bind (overflowed h) k = overflowed h

ok_inj : {A : Type 0} {a b : A} → ok a ≡ ok b → a ≡ b
ok_inj e = cc

module _ {A : Type 0} {P : A → Type 0} {H : Type 0} where
  pub Post-ok : {m : Outcome A} {a : A} → Post P H m → m ≡ ok a → P a
  Post-ok (done p) e = subst P (ok_inj e) p
  Post-ok refused e = absurd cc
  Post-ok (overflowed h) e = absurd cc

  pub Post-overflow : {m : Outcome A} → Post P H m → m ≡ overflow_error → H
  Post-overflow (done p) e = absurd cc
  Post-overflow refused e = absurd cc
  Post-overflow (overflowed h) e = h

unfoldable pub Any : {A : Type 0} → A → Type 0
Any _ = Unit

unfoldable pub ListHasHuge : List Value → Type 0
ListHasHuge [] = ⊥
ListHasHuge (v ∷ vs) = HasHuge v ⊎ ListHasHuge vs

to_list-HasHuge : (vs : Elements) → ListHasHuge (to_list vs) → ItemsHaveHuge vs
unfolding ListHasHuge ItemsHaveHuge
to_list-HasHuge no_elements h = h
to_list-HasHuge (element v vs) (inl h) = inl h
to_list-HasHuge (element v vs) (inr h) = inr (to_list-HasHuge vs h)

get-HasHuge :
    (k : String) (fs : Members) (v : Value) → get k fs ≡ some v → HasHuge v → FieldsHaveHuge fs
unfolding HasHuge FieldsHaveHuge
get-HasHuge k no_members v e h = absurd cc
get-HasHuge k (member j w fs) v e h = elim (Bool-cases (str_eq j k)) [
  | inl q ↦ inl (subst HasHuge (some_inj (sym e ∙ rw q)) h)
  | inr q ↦ inr (get-HasHuge k fs v (sym (rw q) ∙ e) h)
]

pub get_or-HasHuge :
    (k : String) (default : Value) (fs : Members)
    → ¬ HasHuge default
    → HasHuge (get_or k default fs)
    → FieldsHaveHuge fs
get_or-HasHuge k default fs n h = elim (Option-cases (get k fs)) [
  | inl q ↦ absurd (n (subst HasHuge (rw (q, get_or)) h))
  | inr (v, q) ↦ get-HasHuge k fs v q (subst HasHuge (rw (q, get_or)) h)
]

pub null-HasHuge : ¬ HasHuge null
unfolding HasHuge
null-HasHuge h = h

pub no_elements-HasHuge : ¬ HasHuge (array no_elements)
unfolding HasHuge ItemsHaveHuge
no_elements-HasHuge h = h

module _ {H : Type 0} where
  pub check-Post : (b : Bool) → Post (λ _. b ≡ true) H (check b)
  check-Post true = done refl
  check-Post false = refused

  pub Post-never : {A : Type 0} (m : Outcome A) → ¬ (m ≡ overflow_error) → Post Any H m
  unfolding Any
  Post-never (ok a) n = done tt
  Post-never schema_error n = refused
  Post-never overflow_error n = absurd (n refl)

  pub as_dict-Post : (v : Value) → Post (λ fs. FieldsHaveHuge fs → HasHuge v) H (as_dict v)
  unfolding HasHuge
  as_dict-Post (dict fs) = done (λ h. h)
  as_dict-Post null = refused
  as_dict-Post (huge z) = refused
  as_dict-Post (bool b) = refused
  as_dict-Post (num x) = refused
  as_dict-Post (str s) = refused
  as_dict-Post (array vs) = refused

  pub as_list-Post : (v : Value) → Post (λ vs. ListHasHuge vs → HasHuge v) H (as_list v)
  unfolding HasHuge
  as_list-Post (array vs) = done (to_list-HasHuge vs)
  as_list-Post null = refused
  as_list-Post (huge z) = refused
  as_list-Post (bool b) = refused
  as_list-Post (num x) = refused
  as_list-Post (str s) = refused
  as_list-Post (dict fs) = refused

  pub required-Post :
      (k : String) (fs : Members) → Post (λ v. HasHuge v → FieldsHaveHuge fs) H (required k fs)
  required-Post k fs = elim (Option-cases (get k fs)) [
    | inl q ↦ rw (q, required) refused
    | inr (v, q) ↦ rw (q, required) (done (get-HasHuge k fs v q))
  ]

  pub start_state_of-Post : (v : Value) → Post Any H (start_state_of v)
  start_state_of-Post v = Post-never _ (ground arith)

  pub mode_of-Post : (v : Value) → Post Any H (mode_of v)
  mode_of-Post v = Post-never _ (ground arith)
