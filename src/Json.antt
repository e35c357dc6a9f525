-- ===== src/Json.antt =====
-- The values that a JSONB column or a JSON request holds, as Python reads them.
use phera.Common.{
  ℕ, eqb, true, false, not, ◌||◌, String, Bool, Option, none, some, List, [], ◌∷◌, ◌==◌,
  if◌then◌else◌,
}

-- `negsuc n` is -(n + 1).
pub data ℤ : Type 0 where
  pos : ℕ → ℤ
  negsuc : ℕ → ℤ

-- A float is its sign, its whole part, and whether a fraction follows. JSONB holds no NaN and no
-- infinity.
mutual
  pub data Json : Type 0 where
    null : Json
    bool : Bool → Json
    int : ℤ → Json
    float : (negative : Bool) → ℕ → (fraction : Bool) → Json
    str : String → Json
    arr : Items → Json
    obj : Fields → Json

  pub data Items : Type 0 where
    nil : Items
    cons : Json → Items → Items

  pub data Fields : Type 0 where
    end : Fields
    field : String → Json → Fields → Fields

unfoldable pub items : Items → List Json
items nil = []
items (cons j js) = j ∷ items js

-- `data.get(key)`; `none` where the key is missing. A JSON object has each key once.
unfoldable pub lookup : String → Fields → Option Json
lookup k end = none
lookup k (field j v fs) = if j == k then some v else lookup k fs

-- `data.get(key)` with Python's `None` for a missing key, on a value that may be no object.
abbrev pub or_null : Option Json → Json
or_null none = null
or_null (some j) = j

abbrev pub fields_of : Json → Fields
fields_of (obj fs) = fs
fields_of _ = end

-- `bool(value)`
abbrev pub is_true : Json → Bool
is_true null = false
is_true (bool b) = b
is_true (int (pos n)) = not (eqb n 0)
is_true (int (negsuc n)) = true
is_true (float negative whole fraction) = not (eqb whole 0) || fraction
is_true (str s) = not (s == "")
is_true (arr nil) = false
is_true (arr (cons j js)) = true
is_true (obj end) = false
is_true (obj (field k j fs)) = true
