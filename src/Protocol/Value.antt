-- ===== src/Protocol/Value.antt =====
-- The values that the dictionary forms of src/quantum_entanglement/protocol.py are made of, and the Python
-- operations on them that `from_dict` uses.
use quantum_entanglement.Prelude.{
  zero, String, Bool, true, false, not, List, [], ◌∷◌, map, ◌==◌, Option, none, some, if◌then◌else◌,
  Result, ok, err, or_raise, ◌>>=◌,
}
use quantum_entanglement.Prelude.Int.{ℤ, pos}

-- A fraction is its text.
mutual
  pub data Value : Type 0 where
    null : Value
    bool : Bool → Value
    int : ℤ → Value
    real : String → Value
    text : String → Value
    array : Elements → Value
    object : Members → Value

  pub data Elements : Type 0 where
    no_elements : Elements
    element : Value → Elements → Elements

  pub data Members : Type 0 where
    no_members : Members
    member : String → Value → Members → Members

-- `KeyError`, `TypeError` (an `AttributeError` included) and `ValueError`
pub data Error : Type 0 where
  key_error type_error value_error : Error

-- What Python's own conversions do: `str` of what is no text, `int` of a text and of a fraction, whether
-- a fraction is zero, the characters of a text, `dict` of what is no mapping, and whether `strip` leaves nothing.
pub record Python : Type 0 where
  pub repr : Value → String
  pub parse_int : String → Option ℤ
  pub truncate : String → Option ℤ
  pub is_zero : String → Bool
  pub characters : String → List String
  pub dict_of : Value → Result Error Members
  pub blank : String → Bool

abbrev pub elements : Elements → List Value
elements no_elements = []
elements (element v vs) = v ∷ elements vs

abbrev pub elements_of : List Value → Elements
elements_of [] = no_elements
elements_of (v ∷ vs) = element v (elements_of vs)

-- A `dict` display.
abbrev pub members_of : List (String × Value) → Members
members_of [] = no_members
members_of ((k, v) ∷ ms) = member k v (members_of ms)

abbrev pub dict : List (String × Value) → Value
dict ms = object (members_of ms)

-- `[... for x in xs]`
abbrev pub array_of : List Value → Value
array_of vs = array (elements_of vs)

abbrev pub lookup : String → Members → Option Value
lookup k no_members = none
lookup k (member j v ms) = let rest = lookup k ms in if j == k then some v else rest

abbrev pub names : Members → List Value
names no_members = []
names (member j v ms) = text j ∷ names ms

-- `value[k]`
unfoldable pub getitem : String → Value → Result Error Value
getitem k (object ms) = or_raise (lookup k ms) key_error
getitem k _ = err type_error

-- `value.get(k, default)`
unfoldable pub get_or : String → Value → Value → Result Error Value
get_or k default (object ms) = ok (elim (lookup k ms) [ none ↦ default | some v ↦ v ])
get_or k default _ = err type_error

-- `str(value)`
unfoldable pub str : Python → Value → String
str py (text s) = s
str py v = py.repr v

-- `int(value)`
unfoldable pub to_int : Python → Value → Result Error ℤ
to_int py (int n) = ok n
to_int py (bool true) = ok (pos 1)
to_int py (bool false) = ok (pos 0)
to_int py (text s) = or_raise (py.parse_int s) value_error
to_int py (real r) = or_raise (py.truncate r) value_error
to_int py _ = err type_error

-- `bool(value)`
unfoldable pub truth : Python → Value → Bool
truth py null = false
truth py (bool b) = b
truth py (int (pos zero)) = false
truth py (int _) = true
truth py (real r) = not (py.is_zero r)
truth py (text s) = not (s == "")
truth py (array no_elements) = false
truth py (array _) = true
truth py (object no_members) = false
truth py (object _) = true

-- `for x in value`
unfoldable pub iterate : Python → Value → Result Error (List Value)
iterate py (array vs) = ok (elements vs)
iterate py (object ms) = ok (names ms)
iterate py (text s) = ok (map (λ c. text c) (py.characters s))
iterate py _ = err type_error

-- `tuple(f(x) for x in xs)`
unfoldable pub collect :
    {A : Type 0} → (Value → Result Error A) → List Value → Result Error (List A)
collect f [] = ok []
collect f (v ∷ vs) = f v >>= λ a. collect f vs >>= λ as'. ok (a ∷ as')

-- `dict(value)`
unfoldable pub to_members : Python → Value → Result Error Members
to_members py (object ms) = ok ms
to_members py v = py.dict_of v
