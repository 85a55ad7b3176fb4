-- ===== src/Prelude/Json.antt =====
-- The values of Python's json module, with the operations that the code uses on them: dict.get, the
-- truth of a value, `or`, isinstance, iteration and str(). A dict has each key once.
use Prim.Native.Nat.{ℕ, zero, suc, ◌+◌, ◌/◌, ◌%◌}
use mathlib.Core.Bool.{Bool, true, false, ◌&&◌, not}
use mathlib.Core.Option.{Option, none, some}
use mathlib.Core.List.{List, [], ◌∷◌, ◌++◌, map}
use wootpilot.Prelude.Tests.{ltb, ◌==◌, if◌then◌else◌}
use wootpilot.Prelude.Text.{Text, codes, truthy, str_eq}

-- A float is kept as Python prints it, with whether it is zero.
mutual
  pub data Json : Type 0 where
    null : Json
    bool : Bool → Json
    int : (negative : Bool) (magnitude : ℕ) → Json
    float : (is_zero : Bool) (printed : Text) → Json
    str : Text → Json
    arr : Items → Json
    obj : Fields → Json

  pub data Items : Type 0 where
    nil : Items
    item : Json → Items → Items

  pub data Fields : Type 0 where
    end : Fields
    field : (key : Text) → Json → Fields → Fields

abbrev pub items : Items → List Json
items nil = []
items (item v vs) = v ∷ items vs

abbrev pub keys : Fields → List Json
keys end = []
keys (field k v fs) = str k ∷ keys fs

-- A list of strings, as a value.
abbrev pub texts : List Text → Items
texts [] = nil
texts (t ∷ ts) = item (str t) (texts ts)

-- data.get(key)
unfoldable pub get : Fields → Text → Json
unfolding str_eq
get end key = null
get (field k v fs) key = let rest = get fs key in if str_eq k key then v else rest

-- bool(value)
unfoldable pub is_truthy : Json → Bool
is_truthy null = false
is_truthy (bool b) = b
is_truthy (int negative n) = not (n == 0)
is_truthy (float is_zero printed) = not is_zero
is_truthy (str t) = truthy t
is_truthy (arr nil) = false
is_truthy (arr (item v vs)) = true
is_truthy (obj end) = false
is_truthy (obj (field k v fs)) = true

-- a or b
infixr 20 ◌or◌
unfoldable pub ◌or◌ : Json → Json → Json
unfolding is_truthy
a or b = if is_truthy a then a else b

abbrev pub is_null : Json → Bool
is_null null = true
is_null _ = false

-- isinstance(value, dict)
abbrev pub is_dict : Json → Bool
is_dict (obj fs) = true
is_dict _ = false

-- value if isinstance(value, dict) else {}
abbrev pub as_dict : Json → Fields
as_dict (obj fs) = fs
as_dict _ = end

-- value if isinstance(value, list) else []
abbrev pub as_list : Json → List Json
as_list (arr vs) = items vs
as_list _ = []

-- hash(value) raises TypeError on a list and on a dict.
abbrev pub is_hashable : Json → Bool
is_hashable (arr vs) = false
is_hashable (obj fs) = false
is_hashable _ = true

-- value in {None, ""}, on a value that has a hash
abbrev pub is_blank : Json → Bool
is_blank null = true
is_blank (str t) = not (truthy t)
is_blank _ = false

-- iter(value): the items of a list, the characters of a str and the keys of a dict; `none` is
-- TypeError.
abbrev pub iterate : Json → Option (List Json)
iterate (arr vs) = some (items vs)
iterate (str t) = some (map (λ c. str (c ∷ [])) t)
iterate (obj fs) = some (keys fs)
iterate _ = none

-- The decimal digits of a number, on fuel that is above the number.
unfoldable pub decimal_digits : (fuel : ℕ) → ℕ → Text
decimal_digits zero n = []
decimal_digits (suc fuel) n =
    let rest = decimal_digits fuel (n / 10) in
    if ltb n 10 then (n + b'0') ∷ [] else rest ++ (n % 10 + b'0') ∷ []

-- str(n) for an int
unfoldable pub int_text : (negative : Bool) (magnitude : ℕ) → Text
unfolding decimal_digits
int_text negative n =
    let digits = decimal_digits (suc n) n in
    if negative && not (n == 0) then b'-' ∷ digits else digits

-- str(value). A list or a dict prints as the parameter says.
unfoldable pub str_of : (repr : Json → Text) → Json → Text
unfolding int_text
str_of repr null = codes "None"
str_of repr (bool true) = codes "True"
str_of repr (bool false) = codes "False"
str_of repr (int negative n) = int_text negative n
str_of repr (float is_zero printed) = printed
str_of repr (str t) = t
str_of repr (arr vs) = repr (arr vs)
str_of repr (obj fs) = repr (obj fs)

-- data.get(key, default)
unfoldable pub get_or : Fields → Text → Json → Json
unfolding str_eq
get_or end key default = default
get_or (field k v fs) key default =
    let rest = get_or fs key default in if str_eq k key then v else rest

-- Whether a value is one of 0 and False, which are equal to 0.
abbrev pub is_zero_value : Json → Bool
is_zero_value (bool b) = not b
is_zero_value (int negative n) = n == 0
is_zero_value (float is_zero printed) = is_zero
is_zero_value _ = false
