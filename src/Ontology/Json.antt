-- ===== src/Ontology/Json.antt =====
-- JSON values as Python's decoder gives them. A float is a signed fraction or one of the values
-- that are not finite.
use imprint.Base.{
  ℕ, ◌+◌, String, Bool, false, not, ◌&&◌, ◌||◌, Option, none, some, List, [], ◌∷◌, leb, ◌==◌,
  str_eq, if◌then◌else◌, mem, ℤ,
}
use imprint.Ontology.Fault.{Checked, ok, err, key_error, type_error}

pub data Float : Type 0 where
  -- the sign, the numerator, and one less than the denominator
  fraction : Bool → ℕ → ℕ → Float
  infinite : Bool → Float
  nan : Float

mutual
  pub data Json : Type 0 where
    null : Json
    bool : Bool → Json
    int : ℤ → Json
    float : Float → Json
    str : String → Json
    arr : Items → Json
    obj : Fields → Json

  pub data Items : Type 0 where
    nil : Items
    cons : Json → Items → Items

  pub data Fields : Type 0 where
    end : Fields
    field : String → Json → Fields → Fields

abbrev pub find : String → Fields → Option Json
find key end = none
find key (field k v rest) = if str_eq key k then some v else find key rest

abbrev pub found : String → Option Json → Checked Json
found key none = err (key_error key)
found key (some v) = ok v

-- `value[key]`
abbrev pub item : String → Fields → Checked Json
item key value = found key (find key value)

abbrev pub has_key : String → Fields → Bool
has_key key end = false
has_key key (field k v rest) = str_eq key k || has_key key rest

abbrev pub keys : Fields → List String
keys end = []
keys (field k v rest) = k ∷ keys rest

-- `value == text`
abbrev pub is_str : Json → String → Bool
is_str (str s) t = str_eq s t
is_str _ t = false

-- `value in names`, for a set of texts
abbrev pub in_set : Json → List String → Checked Bool
in_set (str s) names = ok (mem s names)
in_set (arr v) names = err type_error
in_set (obj v) names = err type_error
in_set _ names = ok false

-- `0 <= score <= 1` for a number that is finite
abbrev pub in_unit : Float → Bool
in_unit (fraction negative n d) = (not negative || n == 0) && leb n (d + 1)
in_unit _ = false
