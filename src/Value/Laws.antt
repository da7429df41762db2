-- ===== src/Value/Laws.antt =====
-- Reading back what was written into a dict, and when `==` is reflexive.
use ha_dashboard_history.Base.{
  ◌≡◌, refl, ap, ◌∙◌, Bool, true, false, List, [], ◌∷◌, none, some, Text, arith, list_beq_iff,
  list_eq, nat_eq, if◌then◌else◌, ◌==◌, eqb_iff,
}
use ha_dashboard_history.Base.Int.{ℤ, pos, negsuc}
use ha_dashboard_history.Value.{
  Value, null, bool, int, str, arr, obj, Items, nil, cons, Fields, end, field, get, get_or_null,
  or_null, put, size, py_eq, items_eq, fields_eq, int_eq, as_int, to_list, of_list,
}

pub to_list-of_list : (xs : List Value) → to_list (of_list xs) ≡ xs
unfolding to_list of_list
to_list-of_list [] = refl
to_list-of_list (x ∷ xs) = rw (to_list-of_list xs)

pub of_list-to_list : (xs : Items) → of_list (to_list xs) ≡ xs
unfolding to_list of_list
of_list-to_list nil = refl
of_list-to_list (cons x xs) = rw (of_list-to_list xs)

pub text_eq_refl : (s : Text) → (s == s) ≡ true
text_eq_refl s = (list_beq_iff s s).1 refl

pub get-put :
    (k j : Text) (v : Value) (fs : Fields)
    → get j (put k v fs) ≡ (if k == j then some v else get j fs)
unfolding get put
get-put k j v end = refl
get-put k j v (field i w fs) =
    ground (arith, get-put k j v fs, list_beq_iff i k, list_beq_iff i j, list_beq_iff k j)

pub get-put_self : (k : Text) (v : Value) (fs : Fields) → get k (put k v fs) ≡ some v
get-put_self k v fs = rw (get-put k k v fs, text_eq_refl k)

-- Writing the value that is there already changes nothing.
pub put-get_self : (k : Text) (v : Value) (fs : Fields) → get k fs ≡ some v → put k v fs ≡ fs
unfolding get put
put-get_self k v end h = cc
put-get_self k v (field i w fs) h = ground (arith, put-get_self k v fs, list_beq_iff i k)

-- The last write to a key stays.
pub put-put_self : (k : Text) (v w : Value) (fs : Fields) → put k w (put k v fs) ≡ put k w fs
unfolding put
put-put_self k v w end = rw (text_eq_refl k)
put-put_self k v w (field i u fs) = ground (arith, put-put_self k v w fs, list_beq_iff i k)

-- A dict has each key once; so in every value that Python can hold.
mutual
  pub data IsValue : Value → Type 0 where
    null_ok : IsValue null
    bool_ok : (b : Bool) → IsValue (bool b)
    int_ok : (n : ℤ) → IsValue (int n)
    str_ok : (s : Text) → IsValue (str s)
    arr_ok : {xs : Items} → AreValues xs → IsValue (arr xs)
    obj_ok : {fs : Fields} → IsDict fs → IsValue (obj fs)

  pub data AreValues : Items → Type 0 where
    nil_ok : AreValues nil
    cons_ok : {x : Value} {xs : Items} → IsValue x → AreValues xs → AreValues (cons x xs)

  pub data IsDict : Fields → Type 0 where
    end_ok : IsDict end
    field_ok :
        {k : Text} {v : Value} {fs : Fields}
        → get k fs ≡ none
        → IsValue v
        → IsDict fs
        → IsDict (field k v fs)

int_eq_refl : (n : ℤ) → int_eq n n ≡ true
unfolding int_eq
int_eq_refl (pos n) = (eqb_iff n n).1 refl
int_eq_refl (negsuc n) = (eqb_iff n n).1 refl

pub get-tail :
    (k : Text) (v : Value) (fs : Fields) (j : Text) (w : Value)
    → get k fs ≡ none
    → get j fs ≡ some w
    → get j (field k v fs) ≡ some w
unfolding get
get-tail k v fs j w absent h = ground (arith, list_beq_iff k j, ap (λ t. get t fs) {x = k} {y = j})

abbrev pub Within : Fields → Fields → Type 0
Within fs gs = (j : Text) (w : Value) → get j fs ≡ some w → get j gs ≡ some w

pub get_head : (k : Text) (v : Value) (fs : Fields) → get k (field k v fs) ≡ some v
unfolding get
get_head k v fs = rw (text_eq_refl k)

fields_eq-step :
    (k : Text) (v : Value) (fs gs : Fields)
    → get k gs ≡ some v
    → py_eq v v ≡ true
    → fields_eq fs gs ≡ true
    → fields_eq (field k v fs) gs ≡ true
unfolding py_eq
fields_eq-step k v fs gs found same rest = rw (found, fields_eq) (rw (same, rest))

mutual
  unfolding py_eq

  py_eq_refl_of : {v : Value} → IsValue v → py_eq v v ≡ true
  py_eq_refl_of null_ok = refl
  py_eq_refl_of (bool_ok b) = int_eq_refl (as_int b)
  py_eq_refl_of (int_ok n) = int_eq_refl n
  py_eq_refl_of (str_ok s) = text_eq_refl s
  py_eq_refl_of (arr_ok h) = items_eq_refl h
  py_eq_refl_of (obj_ok {fs} h) =
      rw ((eqb_iff (size fs) (size fs)).1 refl) (fields_eq-Within h fs (λ j w e. e))

  items_eq_refl : {xs : Items} → AreValues xs → items_eq xs xs ≡ true
  items_eq_refl nil_ok = refl
  items_eq_refl (cons_ok h hs) = rw (py_eq_refl_of h) (items_eq_refl hs)

  fields_eq-Within :
      {fs : Fields} → IsDict fs → (gs : Fields) → Within fs gs → fields_eq fs gs ≡ true
  fields_eq-Within end_ok gs h = refl
  fields_eq-Within (field_ok {k} {v} {fs} absent ok rest) gs h =
      fields_eq-step k v fs gs (h k v (get_head k v fs)) (py_eq_refl_of ok)
        (fields_eq-Within rest gs (λ j w e. h j w (get-tail k v fs j w absent e)))

pub py_eq_refl : {v : Value} → IsValue v → py_eq v v ≡ true
py_eq_refl h = py_eq_refl_of h

pub get_or_null-put_ne :
    (k j : Text) (v : Value) (fs : Fields)
    → (k == j) ≡ false
    → get_or_null j (put k v fs) ≡ get_or_null j fs
unfolding get_or_null
get_or_null-put_ne k j v fs other =
    ap or_null (get-put k j v fs ∙ ap (λ (b : Bool). if b then some v else get j fs) other)

pub get_or_null-put_self : (k : Text) (v : Value) (fs : Fields) → get_or_null k (put k v fs) ≡ v
unfolding get_or_null
get_or_null-put_self k v fs = ap or_null (get-put_self k v fs)

pub get_or_null_of_get :
    (k : Text) {v : Value} (fs : Fields) → get k fs ≡ some v → get_or_null k fs ≡ v
unfolding get_or_null
get_or_null_of_get k fs e = ap or_null e
