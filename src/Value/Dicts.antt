-- ===== src/Value/Dicts.antt =====
-- Dictionaries of values: what a read finds after a write, truth and equality of values.
use ai_cli_utils.Prelude.{
  ℕ, suc, ◌≡◌, refl, String, Bool, true, false, not, ◌&&◌, Option, none, some, arith, eqb, eq_iff,
  eq_refl, ◌==◌, if◌then◌else◌,
}
use ai_cli_utils.Value.{
  Value, Items, Fields, null, bool, num, str, arr, obj, nil, cons, end, field, find, put,
  set_default, get, or_else, is_end, is_nil,
}

module _ {N : Type 0} where
  pub find-put :
      (j k : String) (v : Value N) (fs : Fields N)
      → find j (put k v fs) ≡ (if k == j then some v else find j fs)
  find-put j k v end = refl
  find-put j k v (field i w rest) =
      ground (arith, eq_iff k j, eq_iff i k, eq_iff i j, find-put j k v rest)

  pub find-put_self : (k : String) (v : Value N) (fs : Fields N) → find k (put k v fs) ≡ some v
  find-put_self k v fs = simp (find-put, eq_refl)

  pub find-set_default :
      (j k : String) (v : Value N) (fs : Fields N)
      → find j (set_default k v fs) ≡ (if k == j then some (or_else (find j fs) v) else find j fs)
  find-set_default j k v fs = ground (arith, find-put j k v fs, eq_iff k j)

  pub get-put :
      (j k : String) (v : Value N) (fs : Fields N)
      → get j (put k v fs) ≡ (if k == j then v else get j fs)
  get-put j k v fs = ground (arith, find-put j k v fs)

-- The documents of the program hold naturals: process ids, positions and sequence numbers.
abbrev pub PyValue : Type 0
PyValue = Value ℕ

abbrev pub Dict : Type 0
Dict = Fields ℕ

-- `bool(value)`
abbrev pub truthy : PyValue → Bool
truthy null = false
truthy (bool b) = b
truthy (num x) = not (eqb x 0)
truthy (str s) = not (s == "")
truthy (arr xs) = not (is_nil xs)
truthy (obj fs) = not (is_end fs)

-- `a or b`
abbrev pub or_value : PyValue → PyValue → PyValue
or_value a b = if truthy a then a else b

abbrev pub count_fields : Dict → ℕ
count_fields end = 0
count_fields (field _ _ rest) = suc (count_fields rest)

abbrev pub as_number : Bool → ℕ
as_number true = 1
as_number false = 0

abbrev pub found_eq : (PyValue → Bool) → Option PyValue → Bool
found_eq test none = false
found_eq test (some w) = test w

-- `==`; two dictionaries are equal if they have as many keys and the same value under each
unfoldable mutual
  pub value_eq : PyValue → PyValue → Bool
  value_eq null null = true
  value_eq (bool a) (bool b) = eqb (as_number a) (as_number b)
  value_eq (bool a) (num y) = eqb (as_number a) y
  value_eq (num x) (bool b) = eqb x (as_number b)
  value_eq (num x) (num y) = eqb x y
  value_eq (str s) (str t) = s == t
  value_eq (arr xs) (arr ys) = items_eq xs ys
  value_eq (obj fs) (obj gs) = eqb (count_fields fs) (count_fields gs) && fields_in fs gs
  value_eq _ _ = false

  pub items_eq : Items ℕ → Items ℕ → Bool
  items_eq nil nil = true
  items_eq (cons x xs) (cons y ys) = value_eq x y && items_eq xs ys
  items_eq _ _ = false

  pub fields_in : Dict → Dict → Bool
  fields_in end gs = true
  fields_in (field k v rest) gs = found_eq (value_eq v) (find k gs) && fields_in rest gs
