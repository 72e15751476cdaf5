-- ===== src/SprayStatus/Publish.antt =====
-- What a status holds can be published.
use Prim.Native.String.{String}
use px4_dxp.Prelude.{
  ℕ, ◌≡◌, ◌⊎◌, refl, Bool, true, false, ◌&&◌, ◌||◌, Option, none, some, inl, inr, arith,
}
use px4_dxp.Session.Json.{Number, finite}
use px4_dxp.SprayStatus.{
  Key, real_key, object_key, Datum, absent, flag, whole, huge, real, words, object, series, tuple,
  table, Items, no_items, item, Entries, no_entries, entry, SpraySessionStatus, StatusArguments,
  finite_only, put, sanitize_optional_float, sanitize_mode_state_key, real_or_absent,
  sanitize_mode_state, sanitize_items, sanitize_entries, given_state, status_of, make_status,
}

abbrev pub finite_number : Number → Bool
finite_number (finite z) = true
finite_number _ = false

-- A key that `json.dumps(allow_nan=False)` takes: of a JSON type, and no float that is not finite.
abbrev pub plain_key : Key → Bool
plain_key (real_key x) = finite_number x
plain_key (object_key n) = false
plain_key _ = true

-- A value without floats that are not finite and with such keys only, at any depth; `default=str`
-- takes an object.
unfoldable mutual
  pub plain : Datum → Bool
  plain absent = true
  plain (flag b) = true
  plain (whole z) = true
  plain (huge z) = true
  plain (real x) = finite_number x
  plain (words s) = true
  plain (object n) = true
  plain (series xs) = plain_items xs
  plain (tuple xs) = plain_items xs
  plain (table es) = plain_entries es

  pub plain_items : Items → Bool
  plain_items no_items = true
  plain_items (item v xs) = plain v && plain_items xs

  pub plain_entries : Entries → Bool
  plain_entries no_entries = true
  plain_entries (entry k v es) = plain_key k && (plain v && plain_entries es)

abbrev pub plain_optional : Option Number → Bool
plain_optional none = true
plain_optional (some x) = finite_number x

abbrev pub publishable : SpraySessionStatus → Bool
publishable s =
    plain_optional s.distance_to_boundary
    && (plain_optional s.xtrack_error && plain_entries s.mode_state)

abbrev pub is_huge : Datum → Bool
is_huge (huge z) = true
is_huge _ = false

put-plain :
    (k : Key) (v : Datum) (es : Entries)
    → plain_key k ≡ true
    → plain v ≡ true
    → plain_entries es ≡ true
    → plain_entries (put k v es) ≡ true
unfolding plain
put-plain k v no_entries hk hv h = ground arith
put-plain k v (entry j u es) hk hv h = let rest = put-plain k v es hk hv in ground arith

finite_only-plain : (x : Number) → plain_optional (finite_only x) ≡ true
finite_only-plain x = ground arith

read-plain :
    (o : Option Number) → plain_optional (elim o [ none ↦ none | some x ↦ finite_only x ]) ≡ true
read-plain none = refl
read-plain (some x) = finite_only-plain x

module _ (float_of : String → Option Number) (float_of_object : ℕ → Option Number)
    (str_of_object : ℕ → String) where
  key-plain :
      (k : Key)
      → plain_key (sanitize_mode_state_key float_of float_of_object str_of_object k) ≡ true
  unfolding sanitize_mode_state_key
  key-plain k = ground arith

  real_or_absent-plain : (x : Number) → plain (real_or_absent x) ≡ true
  unfolding plain
  real_or_absent-plain x = ground arith

  -- What the sanitizer gives holds no float that is not finite, at any depth.
  mutual
    unfolding plain sanitize_mode_state

    sanitize-plain :
        (v : Datum) → plain (sanitize_mode_state float_of float_of_object str_of_object v) ≡ true
    sanitize-plain absent = refl
    sanitize-plain (flag b) = refl
    sanitize-plain (whole z) = refl
    sanitize-plain (huge z) = refl
    sanitize-plain (real x) = real_or_absent-plain x
    sanitize-plain (words s) = refl
    sanitize-plain (object n) = refl
    sanitize-plain (series xs) = items-plain xs
    sanitize-plain (tuple xs) = items-plain xs
    sanitize-plain (table es) = entries-plain es no_entries refl

    items-plain :
        (xs : Items) → plain_items (sanitize_items float_of float_of_object str_of_object xs) ≡ true
    items-plain no_items = refl
    items-plain (item v xs) = rw (sanitize-plain v) (items-plain xs)

    entries-plain :
        (es done : Entries)
        → plain_entries done ≡ true
        → plain_entries (sanitize_entries float_of float_of_object str_of_object es done) ≡ true
    entries-plain no_entries done h = h
    entries-plain (entry k v es) done h =
        entries-plain es _ (put-plain _ _ done (key-plain k) (sanitize-plain v) h)

  optional-cases :
      (v : Datum)
      → ((is_huge v ≡ true)
          × (sanitize_optional_float float_of float_of_object str_of_object v ≡ none))
        ⊎ ((is_huge v ≡ false)
            × ((x : Option Number) × ((sanitize_optional_float float_of float_of_object
                      str_of_object v
                    ≡ some x)
                  × (plain_optional x ≡ true))))
  unfolding sanitize_optional_float
  optional-cases absent = inr (refl, (_, (refl, refl)))
  optional-cases (flag true) = inr (refl, (_, (refl, refl)))
  optional-cases (flag false) = inr (refl, (_, (refl, refl)))
  optional-cases (whole z) = inr (refl, (_, (refl, refl)))
  optional-cases (huge z) = inl (refl, refl)
  optional-cases (real x) = inr (refl, (_, (refl, finite_only-plain x)))
  optional-cases (words s) = inr (refl, (_, (refl, read-plain (float_of s))))
  optional-cases (object n) = inr (refl, (_, (refl, read-plain (float_of_object n))))
  optional-cases (series xs) = inr (refl, (_, (refl, refl)))
  optional-cases (tuple xs) = inr (refl, (_, (refl, refl)))
  optional-cases (table es) = inr (refl, (_, (refl, refl)))

  -- `make_status` raises exactly when the distance or the cross-track error is an integer beyond
  -- the range of floats. Otherwise it gives a status that has no float that is not finite, at any
  -- depth of its mode state, and only keys of JSON types there.
  pub make_status-publishable :
      (a : StatusArguments)
      → ((is_huge a.distance_to_boundary || is_huge a.xtrack_error ≡ true)
          × (make_status float_of float_of_object str_of_object a ≡ none))
        ⊎ ((is_huge a.distance_to_boundary || is_huge a.xtrack_error ≡ false)
            × ((s : SpraySessionStatus) × ((make_status float_of float_of_object str_of_object a
                    ≡ some s)
                  × (publishable s ≡ true))))
  unfolding make_status status_of sanitize_mode_state plain_entries
  make_status-publishable a = elim (optional-cases a.distance_to_boundary) [
    | inl (hd, ed) ↦ inl (rw hd refl, rw (make_status, ed) refl)
    | inr (hd, (d, (ed, pd))) ↦ elim (optional-cases a.xtrack_error) [
      | inl (hx, ex) ↦ inl (rw (hd, hx) refl, rw (make_status, ed, ex) refl)
      | inr (hx, (x, (ex, px))) ↦ inr (
        rw (hd, hx) refl,
        (
          status_of float_of float_of_object str_of_object a d x,
          (
            rw (make_status, ed, ex) refl,
            rw (pd, px) (entries-plain (given_state a.mode_state) no_entries refl),
          ),
        ),
      )
    ]
  ]
