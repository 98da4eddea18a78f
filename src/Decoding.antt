-- ===== src/Decoding.antt =====
-- What the older engine reads from the JSON that a node sends: molink/comm/utils.py. msgspec has parsed
-- the text already. A string in the place of an array is not taken apart into its characters.
pub mod Outputs
pub mod Returned
pub mod Records
pub mod Requests
pub mod Sent
pub mod Received
use mo_link.Prelude.{
  ℕ, zero, suc, ℤ, String, ◌==◌, Dict, lookup, length, get_elem?, Bool, true, false, Option, none,
  some, List, [], ◌∷◌, map, Result, ok, raise, type_error, attribute_error, index_error, key_error,
  ◌≡◌, refl, ap, ◌>>=◌, if◌then◌else◌,
}

-- Floats, int(s), and what an integer key is written as.
pub record Numbers : Type 1 where
  pub Float : Type 0
  pub zero : Float
  pub one : Float
  pub inf : Float
  pub int_of : String → Result ℤ
  pub text_of : ℤ → String

module _ (num : Numbers) where
  mutual
    pub data Json : Type 0 where
      null : Json
      boolean : Bool → Json
      integer : ℤ → Json
      float : num.Float → Json
      text : String → Json
      array : Items → Json
      object : Fields → Json

    pub data Items : Type 0 where
      end : Items
      item : Json → Items → Items

    pub data Fields : Type 0 where
      blank : Fields
      field : String → Json → Fields → Fields

  abbrev pub list_of : Items → List Json
  list_of end = []
  list_of (item v items) = v ∷ list_of items

  abbrev pub items_of : List Json → Items
  items_of [] = end
  items_of (v ∷ vs) = item v (items_of vs)

  abbrev pub dict_of : Fields → Dict Json
  dict_of blank = []
  dict_of (field k v fields) = (k, v) ∷ dict_of fields

  abbrev pub fields_of : Dict Json → Fields
  fields_of [] = blank
  fields_of ((k, v) ∷ d) = field k v (fields_of d)

  abbrev pub array_of : List Json → Json
  array_of vs = array (items_of vs)

  abbrev pub object_of : Dict Json → Json
  object_of d = object (fields_of d)

module _ {num : Numbers} where
  pub list-items : (vs : List (Json num)) → list_of num (items_of num vs) ≡ vs
  list-items [] = refl
  list-items (v ∷ vs) = ap (◌∷◌ v) (list-items vs)

  pub dict-fields : (d : Dict (Json num)) → dict_of num (fields_of num d) ≡ d
  dict-fields [] = refl
  dict-fields ((k, v) ∷ d) = ap (◌∷◌ (k, v)) (dict-fields d)

  abbrev present : Option (Json num) → Result (Json num)
  present none = raise index_error
  present (some v) = ok v

  -- v[i]
  unfoldable pub at : Json num → ℕ → Result (Json num)
  at (array items) i = present (get_elem? (list_of num items) i)
  at (object fields) i = raise key_error
  at v i = raise type_error

  -- for x in v
  unfoldable pub elements : Json num → Result (List (Json num))
  elements (array items) = ok (list_of num items)
  elements (object fields) = ok (map (λ e. text e.0) (dict_of num fields))
  elements v = raise type_error

  -- v.items()
  unfoldable pub entries : Json num → Result (Dict (Json num))
  entries (object fields) = ok (dict_of num fields)
  entries v = raise attribute_error

  abbrev pub or_else : Json num → Option (Json num) → Json num
  or_else default none = default
  or_else default (some v) = v

  -- v.get(key, default)
  unfoldable pub get_or : Json num → String → Json num → Result (Json num)
  unfolding entries
  get_or v key default = entries v >>= λ d. ok (or_else default (lookup key d))
