-- ===== src/Marketplace/Logging/Masked.antt =====
-- No password of a well-formed body is logged.
use service_oriented_hw.Common.{
  ◌≡◌, refl, ap, sym, ◌∙◌, Bool, true, false, Bool-cases, inl, inr, ◌&&◌, Option, none, some, List,
  [], ◌∷◌, String, ltb, if◌then◌else◌, arith,
}
use service_oriented_hw.Marketplace.Logging.{
  Json, null, bool, number, string, array, object, Fields, end_object, field, has_body, sensitive,
  mask_sensitive, mask_nested, body_log, masked_map,
}
use Prim.Native.String.{len}
use text.Mathlib.Text.{◌==◌ as same_text}
use text.Mathlib.TextEquality.{eq_iff}

-- The value of a key, and of a key in the object that a path of keys leads to.
unfoldable pub lookup : String → Fields → Option Json
lookup key end_object = none
lookup key (field k value rest) = if same_text k key then some value else lookup key rest

unfoldable pub value_at : List String → String → Fields → Option Json
unfolding lookup
value_at [] key fields = lookup key fields
value_at (k ∷ path) key fields = elim (lookup k fields) [
  | none ↦ none
  | some value ↦ elim value [ object inner ↦ value_at path key inner | _ ↦ none ]
]

module _ (to_lower : String → String) where
  -- What a key has after the masking.
  abbrev masked : String → Json → Json
  masked key value = if sensitive to_lower key then string "***" else mask_nested to_lower value

  abbrev masked_option : String → Option Json → Option Json
  masked_option key none = none
  masked_option key (some value) = some (masked key value)

  lookup-mask_sensitive :
      (key : String) (fields : Fields)
      → lookup key (mask_sensitive to_lower fields) ≡ masked_option key (lookup key fields)
  unfolding lookup mask_sensitive
  lookup-mask_sensitive key end_object = refl
  lookup-mask_sensitive key (field k value rest) = elim (Bool-cases (same_text k key)) [
    | inl same ↦ rw same (ap (λ x. some (masked x value)) ((eq_iff k key).0 same))
    | inr other ↦ rw other (lookup-mask_sensitive key rest)
  ]

  -- What a path finds behind what its first key has.
  abbrev inside : List String → String → Option Json → Option Json
  inside path key found = elim found [
    | none ↦ none
    | some v ↦ elim v [ object inner ↦ value_at path key inner | _ ↦ none ]
  ]

  -- Nothing but *** is found behind a value that was masked, if this holds of its objects.
  inside-masked :
      (path : List String) (key k : String) (value : Json)
      → ((inner : Fields)
          → value_at path key (mask_sensitive to_lower inner) ≡ some value
          → value ≡ string "***")
      → (found : Option Json) → inside path key (masked_option k found) ≡ some value
      → value ≡ string "***"
  unfolding mask_sensitive
  inside-masked path key k value deeper none h = absurd (ground (arith, h))
  inside-masked path key k value deeper (some v) h = elim (Bool-cases (sensitive to_lower k)) [
    | inl hidden ↦
        absurd (let no_more : ◌≡◌ {A = Option Json} none (some value) = rw hidden at h in cc)
    | inr plain ↦ nested v (rw plain at h)
  ]
    where
      nested :
          (v : Json)
          → inside path key (some (mask_nested to_lower v)) ≡ some value
          → value ≡ string "***"
      nested (object inner) h = deeper inner h
      nested null h = absurd (ground (arith, h))
      nested (bool b) h = absurd (ground (arith, h))
      nested (number n) h = absurd (ground (arith, h))
      nested (string t) h = absurd (ground (arith, h))
      nested (array xs) h = absurd (ground (arith, h))

  masked_option-sensitive :
      (key : String) (value : Json)
      → sensitive to_lower key ≡ true
      → (found : Option Json) → masked_option key found ≡ some value
      → value ≡ string "***"
  masked_option-sensitive key value secret none h = absurd (ground (arith, h))
  masked_option-sensitive key value secret (some v) h =
      let is : some (string "***") ≡ some value = rw secret at h in cc

  value_at-mask_sensitive :
      (path : List String) (key : String) (fields : Fields) (value : Json)
      → sensitive to_lower key ≡ true
      → value_at path key (mask_sensitive to_lower fields) ≡ some value
      → value ≡ string "***"
  unfolding value_at
  value_at-mask_sensitive [] key fields value secret at =
      masked_option-sensitive key value secret (lookup key fields)
        (sym (lookup-mask_sensitive key fields) ∙ at)
  value_at-mask_sensitive (k ∷ path) key fields value secret at =
      inside-masked path key k value (λ inner. value_at-mask_sensitive path key inner value secret)
        (lookup k fields) (sym (ap (inside path key) (lookup-mask_sensitive k fields)) ∙ at)

  logged_masked :
      (guard : Bool) (found : Option Fields × Bool) (fields : Fields)
      → found.1 ≡ false
      → (if guard then masked_map to_lower found else none) ≡ some fields
      → (raw : Fields) × (fields ≡ mask_sensitive to_lower raw)
  logged_masked true (some raw, false) fields fine h = (raw, cc)
  logged_masked true (some raw, true) fields fine h = absurd (ground (arith, fine))
  logged_masked true (none, failed) fields fine h = absurd (ground (arith, h))
  logged_masked false found fields fine h = absurd (ground (arith, h))

  -- In a body that is logged and that `json.Unmarshal` has taken without an error, every key that
  -- reads "password" in lower case, at whatever depth of nested objects, has the value "***".
  pub body_log_hides :
      (unmarshal : String → Option Fields × Bool) (method body : String) (fields : Fields)
      (path : List String) (key : String) (value : Json)
      → (unmarshal body).1 ≡ false
      → body_log to_lower unmarshal method body ≡ some fields
      → sensitive to_lower key ≡ true
      → value_at path key fields ≡ some value
      → value ≡ string "***"
  unfolding body_log
  body_log_hides unmarshal method body fields path key value fine logged secret at =
      let (raw, is) =
        logged_masked (has_body method && ltb 0 (len body) && ltb (len body) 4096) (unmarshal body)
          fields fine logged in
      value_at-mask_sensitive path key raw value secret (ap (value_at path key) (sym is) ∙ at)
