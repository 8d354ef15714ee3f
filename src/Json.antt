-- ===== src/Json.antt =====
-- JavaScript values as the handlers receive them (`unknown`): what `JSON.parse` yields, with
-- `undefined` for a property that is absent.
use captivo_access.Prelude.{
  ℕ, Bool, true, false, List, [], ◌∷◌, Option, none, some, Text, text_eq, trim, is_empty,
  if◌then◌else◌,
}

-- A number: a natural, a negative integer -(n + 1), a fraction (its sign and the integer part of
-- its absolute value), an infinity (negative or not), or NaN.
pub data Num : Type 0 where
  nat : ℕ → Num
  negsuc : ℕ → Num
  fraction : Bool → ℕ → Num
  infinite : Bool → Num
  nan : Num

mutual
  pub data Json : Type 0 where
    undefined null : Json
    bool : Bool → Json
    num : Num → Json
    str : Text → Json
    arr : Items → Json
    obj : Fields → Json

  pub data Items : Type 0 where
    nil : Items
    cons : Json → Items → Items

  pub data Fields : Type 0 where
    end : Fields
    field : Text → Json → Fields → Fields

abbrev pub items : Items → List Json
items nil = []
items (cons v vs) = v ∷ items vs

-- `o[k]` for the fields of an object.
unfoldable pub get : Text → Fields → Json
get k end = undefined
get k (field j v fs) = if text_eq j k then v else get k fs

-- `k in o`.
unfoldable pub has : Text → Fields → Bool
has k end = false
has k (field j v fs) = if text_eq j k then true else has k fs

-- `typeof v === "string" ? v : null`.
abbrev pub as_string : Json → Option Text
as_string (str s) = some s
as_string _ = none

-- `typeof v === "string" ? v.trim() : ""`.
unfoldable pub trimmed_string : Json → Text
trimmed_string (str s) = trim s
trimmed_string _ = []

-- `v == null`.
abbrev pub is_nullish : Json → Bool
is_nullish undefined = true
is_nullish null = true
is_nullish _ = false

-- `v === true`.
abbrev pub is_true : Json → Bool
is_true (bool b) = b
is_true _ = false

-- `s || null`.
abbrev pub non_empty : Text → Option Text
non_empty s = if is_empty s then none else some s
