-- ===== src/Session/Json.antt =====
-- JSON values as Python's `json.loads` gives them, and the outcomes of reading one. A number is a
-- whole number of millionths, the grid of `path_fingerprint`, or a float that is not finite; an
-- integer beyond the range of floats is `huge`.
use Prim.Native.String.{String}
use text.Mathlib.Text.{◌==◌}
use px4_dxp.Prelude.{Bool, true, false, List, [], ◌∷◌, Option, none, some, ℤ, if◌then◌else◌}

pub data Number : Type 0 where
  nan pos_inf neg_inf : Number
  finite : ℤ → Number

mutual
  pub data Value : Type 0 where
    null : Value
    huge : ℤ → Value
    bool : Bool → Value
    num : Number → Value
    str : String → Value
    array : Elements → Value
    dict : Members → Value

  pub data Members : Type 0 where
    no_members : Members
    member : String → Value → Members → Members

  pub data Elements : Type 0 where
    no_elements : Elements
    element : Value → Elements → Elements

abbrev pub of_list : List Value → Elements
of_list [] = no_elements
of_list (v ∷ vs) = element v (of_list vs)

abbrev pub to_list : Elements → List Value
to_list no_elements = []
to_list (element v vs) = v ∷ to_list vs

-- `d.get(k)`, without a default.
abbrev pub get : String → Members → Option Value
get k no_members = none
get k (member j v fs) = if j == k then some v else get k fs

-- `d.get(k, default)`
abbrev pub get_or : String → Value → Members → Value
get_or k default fs = elim (get k fs) [ none ↦ default | some v ↦ v ]

abbrev pub is_null : Value → Bool
is_null null = true
is_null _ = false

-- A value, the ConfigSchemaError, or the OverflowError of `float` on a huge integer.
pub data Outcome (A : Type 0) : Type 0 where
  ok : A → Outcome A
  schema_error overflow_error : Outcome A

infixl 5 ◌>>=◌ ◌>>◌
abbrev pub ◌>>=◌ : {A B : Type 0} → Outcome A → (A → Outcome B) → Outcome B
ok a >>= f = f a
schema_error >>= f = schema_error
overflow_error >>= f = overflow_error

abbrev pub ◌>>◌ : {B : Type 0} → Outcome (Unit {0}) → Outcome B → Outcome B
m >> k = m >>= λ _. k

-- `if not b: raise ConfigSchemaError`
abbrev pub check : Bool → Outcome (Unit {0})
check true = ok tt
check false = schema_error
