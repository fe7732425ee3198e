-- ===== src/Marketplace/Logging.antt =====
-- services/marketplace-api/internal/middleware/logging.go: the request body that is logged, with the
-- passwords masked. `strings.ToLower` and `json.Unmarshal` are parameters; `Unmarshal` gives the map
-- that it leaves, with `none` for a nil one, and whether it returns an error, which it may do with a
-- map that has been filled.
pub mod Masked
pub mod Entry
use service_oriented_hw.Common.{
  ◌≡◌, refl, ap, sym, ◌∙◌, Bool, true, false, Bool-cases, inl, inr, ◌&&◌, ◌||◌, Option, none, some,
  List, [], ◌∷◌, String, ltb, if◌then◌else◌, arith,
}
use Prim.Native.String.{len}
use text.Mathlib.Text.{◌==◌ as same_text}
use text.Mathlib.TextEquality.{eq_iff}

mutual
  pub data Json : Type 0 where
    null : Json
    bool : Bool → Json
    number : String → Json
    string : String → Json
    array : Items → Json
    object : Fields → Json

  pub data Items : Type 0 where
    end_array : Items
    item : Json → Items → Items

  pub data Fields : Type 0 where
    end_object : Fields
    field : String → Json → Fields → Fields

-- POST or PUT
abbrev pub has_body : String → Bool
has_body method = same_text method "POST" || same_text method "PUT"

module _ (to_lower : String → String) where
  abbrev pub sensitive : String → Bool
  sensitive key = same_text (to_lower key) "password"

  unfoldable mutual
    pub mask_sensitive : Fields → Fields
    mask_sensitive end_object = end_object
    mask_sensitive (field key value rest) =
        field key (if sensitive key then string "***" else mask_nested value) (mask_sensitive rest)

    pub mask_nested : Json → Json
    mask_nested (object fields) = object (mask_sensitive fields)
    mask_nested value = value

  -- The map behind `Unmarshal`: it is masked in place if there was no error, and kept anyway.
  abbrev pub masked_map : Option Fields × Bool → Option Fields
  masked_map (none, failed) = none
  masked_map (some fields, failed) = some (if failed then fields else mask_sensitive fields)

  -- The attribute `request_body`.
  unfoldable pub body_log : (String → Option Fields × Bool) → String → String → Option Fields
  body_log unmarshal method body =
      if has_body method && ltb 0 (len body) && ltb (len body) 4096
      then masked_map (unmarshal body)
      else none
