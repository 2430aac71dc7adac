-- ===== src/Json.antt =====
-- JSON values, the `unknown` of the source: what `JSON.parse` returns and what tools are given.
-- A number is kept as the text that `String(n)` prints for it.
pub mod Coerce
pub mod Extract
use nest_langgraph_ai.Prelude.{
  Text, Bool, true, false, not, ◌&&◌, ◌||◌, List, [], ◌∷◌, Option, none, some, codes, text_eq,
  if◌then◌else◌, is_empty, includes,
}

mutual
  pub data Json : Type 0 where
    null : Json
    boolean : Bool → Json
    number : Text → Json
    string : Text → Json
    array : Items → Json
    object : Fields → Json

  pub data Items : Type 0 where
    nil : Items
    cons : Json → Items → Items

  pub data Fields : Type 0 where
    end : Fields
    field : Text → Json → Fields → Fields

-- An array of strings.
unfoldable pub strings : List Text → Items
strings [] = nil
strings (t ∷ ts) = cons (string t) (strings ts)

-- The value in a Boolean test.
unfoldable pub truthy : Json → Bool
truthy null = false
truthy (boolean b) = b
truthy (number n) = not (text_eq n (codes "0"))
truthy (string t) = not (is_empty t)
truthy (array xs) = true
truthy (object fs) = true

-- `a === b` for values of two different containers, so no two arrays or objects are one.
unfoldable pub strict_eq : Json → Json → Bool
strict_eq null null = true
strict_eq (boolean true) (boolean b) = b
strict_eq (boolean false) (boolean b) = not b
strict_eq (number m) (number n) = text_eq m n
strict_eq (string s) (string t) = text_eq s t
strict_eq _ _ = false

unfoldable pub get_field : Text → Fields → Option Json
get_field k end = none
get_field k (field j v fs) = if text_eq j k then some v else get_field k fs

-- `xs.includes(t)` for an array and a string.
unfoldable pub array_includes : Text → Items → Bool
unfolding strict_eq
array_includes t nil = false
array_includes t (cons v vs) = strict_eq v (string t) || array_includes t vs

-- `typeof v === 'string' && v.includes(part)`.
unfoldable pub string_includes : Text → Json → Bool
string_includes part (string t) = includes part t
string_includes part null = false
string_includes part (boolean b) = false
string_includes part (number n) = false
string_includes part (array xs) = false
string_includes part (object fs) = false
