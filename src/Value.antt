-- ===== src/Value.antt =====
-- The values that a dashboard is made of, as YAML and JSON load them in Python: what `==`, truth,
-- `dict.get` and item assignment do with them.
pub mod Laws
pub mod Dump
use ha_dashboard_history.Base.{
  ℕ, zero, suc, Bool, true, false, ◌&&◌, not, List, [], ◌∷◌, Option, none, some, Text, eqb, ◌==◌,
  list_eq, nat_eq, if◌then◌else◌, is_nil, length,
}
use ha_dashboard_history.Base.Int.{ℤ, pos, negsuc}

mutual
  pub data Value : Type 0 where
    null : Value
    bool : Bool → Value
    int : ℤ → Value
    str : Text → Value
    arr : Items → Value
    obj : Fields → Value

  pub data Items : Type 0 where
    nil : Items
    cons : Value → Items → Items

  -- A `dict`: its items in the order in which the keys came in.
  pub data Fields : Type 0 where
    end : Fields
    field : Text → Value → Fields → Fields

unfoldable pub to_list : Items → List Value
to_list nil = []
to_list (cons x xs) = x ∷ to_list xs

unfoldable pub of_list : List Value → Items
of_list [] = nil
of_list (x ∷ xs) = cons x (of_list xs)

abbrev pub list : List Value → Value
list xs = arr (of_list xs)

-- `bool(v)`
unfoldable pub truthy : Value → Bool
truthy null = false
truthy (bool b) = b
truthy (int (pos zero)) = false
truthy (int n) = true
truthy (str s) = not (is_nil s)
truthy (arr nil) = false
truthy (arr xs) = true
truthy (obj end) = false
truthy (obj fs) = true

-- `d.get(key)` with none for a missing key.
unfoldable pub get : Text → Fields → Option Value
get key end = none
get key (field k v fs) = if k == key then some v else get key fs

abbrev pub or_null : Option Value → Value
or_null none = null
or_null (some v) = v

-- `d.get(key)`, where a missing key and `null` read alike.
unfoldable pub get_or_null : Text → Fields → Value
get_or_null key fs = or_null (get key fs)

-- `d[key] = v`: in place where the key is there, and else behind the others.
unfoldable pub put : Text → Value → Fields → Fields
put key v end = field key v end
put key v (field k w fs) = if k == key then field k v fs else field k w (put key v fs)

-- `del d[key]`, and `{k: v for k, v in d.items() if k != key}`
unfoldable pub without : Text → Fields → Fields
without key end = end
without key (field k v fs) = let rest = without key fs in if k == key then rest else field k v rest

unfoldable pub size : Fields → ℕ
size end = 0
size (field k v fs) = suc (size fs)

abbrev as_int : Bool → ℤ
as_int true = pos 1
as_int false = pos 0

unfoldable pub int_eq : ℤ → ℤ → Bool
int_eq (pos a) (pos b) = eqb a b
int_eq (negsuc a) (negsuc b) = eqb a b
int_eq _ _ = false

-- Python's `==`: True is 1 and False is 0, and the order of a dict's keys is nothing.
unfoldable mutual
  pub py_eq : Value → Value → Bool
  py_eq null null = true
  py_eq (bool a) (bool b) = int_eq (as_int a) (as_int b)
  py_eq (bool a) (int b) = int_eq (as_int a) b
  py_eq (int a) (bool b) = int_eq a (as_int b)
  py_eq (int a) (int b) = int_eq a b
  py_eq (str s) (str t) = s == t
  py_eq (arr xs) (arr ys) = items_eq xs ys
  py_eq (obj fs) (obj gs) = eqb (size fs) (size gs) && fields_eq fs gs
  py_eq _ _ = false

  pub items_eq : Items → Items → Bool
  items_eq nil nil = true
  items_eq (cons x xs) (cons y ys) = py_eq x y && items_eq xs ys
  items_eq _ _ = false

  -- Every key of the first dict is in the second, at an equal value.
  pub fields_eq : Fields → Fields → Bool
  fields_eq end gs = true
  fields_eq (field k v fs) gs =
      (elim (get k gs) [ none ↦ false | some w ↦ py_eq v w ]) && fields_eq fs gs

unfoldable pub is_null : Value → Bool
is_null null = true
is_null _ = false

-- `isinstance(v, dict)`, with the dict.
unfoldable pub as_dict : Value → Option Fields
as_dict (obj fs) = some fs
as_dict _ = none

-- `isinstance(v, list)`, with the list.
unfoldable pub as_list : Value → Option (List Value)
as_list (arr xs) = some (to_list xs)
as_list _ = none
