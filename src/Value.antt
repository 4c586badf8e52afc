-- ===== src/Value.antt =====
-- Values of Python and JSON as the program inspects them, over the numbers of the interpreter.
pub mod Dicts
pub mod Files
use ai_cli_utils.Prelude.{ℕ, String, Bool, true, false, Option, none, some, ◌==◌, if◌then◌else◌}

-- Python's numbers, `int` and `float`: a type that the program only compares and subtracts.
pub record Numbers : Type 1 where
  pub Number : Type 0
  pub is_int : Number → Bool
  -- `math.isfinite`, and `none` where it raises `OverflowError` of an integer that no `float` holds
  pub is_finite : Number → Option Bool
  pub eq : Number → Number → Bool
  pub le : Number → Number → Bool
  pub sub : Number → Number → Number
  pub of_nat : ℕ → Number

mutual
  pub data Value (N : Type 0) : Type 0 where
    null : Value N
    bool : Bool → Value N
    num : N → Value N
    str : String → Value N
    arr : Items N → Value N
    obj : Fields N → Value N

  pub data Items (N : Type 0) : Type 0 where
    nil : Items N
    cons : Value N → Items N → Items N

  pub data Fields (N : Type 0) : Type 0 where
    end : Fields N
    field : String → Value N → Fields N → Fields N

module _ {N : Type 0} where
  -- `key in d`, with the value
  abbrev pub find : String → Fields N → Option (Value N)
  find k end = none
  find k (field j v rest) = if j == k then some v else find k rest

  abbrev pub or_else : Option (Value N) → Value N → Value N
  or_else none d = d
  or_else (some v) d = v

  -- `d.get(key, default)` and `d.get(key)`
  abbrev pub get_or : String → Value N → Fields N → Value N
  get_or k d fs = or_else (find k fs) d

  abbrev pub get : String → Fields N → Value N
  get k fs = get_or k null fs

  -- `value == text`
  abbrev pub is_text : Value N → String → Bool
  is_text (str s) t = s == t
  is_text _ t = false

  abbrev pub is_end : Fields N → Bool
  is_end end = true
  is_end (field _ _ _) = false

  abbrev pub is_nil : Items N → Bool
  is_nil nil = true
  is_nil (cons _ _) = false

  -- `d[key] = value`
  abbrev pub put : String → Value N → Fields N → Fields N
  put k v end = field k v end
  put k v (field j w rest) = if j == k then field j v rest else field j w (put k v rest)

  -- `d.update(other)`
  abbrev pub update : Fields N → Fields N → Fields N
  update fs end = fs
  update fs (field k v rest) = update (put k v fs) rest

  -- `d.setdefault(key, value)`, without its answer
  abbrev pub default_to : Option (Value N) → Fields N → Fields N → Fields N
  default_to none missing present = missing
  default_to (some _) missing present = present

  abbrev pub set_default : String → Value N → Fields N → Fields N
  set_default k v fs = default_to (find k fs) (put k v fs) fs
