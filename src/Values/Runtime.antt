-- ===== src/Values/Runtime.antt =====
-- What the program takes from the JavaScript engine: the arithmetic of doubles, the reading and
-- printing of numbers and dates, and the built-in properties of values. Nothing is assumed of them
-- here; a theorem that needs a law names it.
use mini_sentinel.Prelude.{ℕ, String, Bool, true, false, Option, List, [], ◌∷◌, ◌^^◌, join}
use mini_sentinel.Values.Json.{
  Json, null, bool, num, str, arr, obj, Items, nil, cons, Fields, end, field,
}

pub record Runtime (F : Type 0) : Type 0 where
  -- the literal m / 10 ^ k
  pub lit : ℕ → ℕ → F
  pub nan : F
  pub add : F → F → F
  pub mul : F → F → F
  pub div : F → F → F
  -- `<`, `<=` and `===` of numbers
  pub lt : F → F → Bool
  pub le : F → F → Bool
  pub eq : F → F → Bool
  pub is_nan : F → Bool
  -- `Number(s)`, `parseInt(s, 10)` and `parseFloat(s)` of a text
  pub number : String → F
  pub parse_int : String → F
  pub parse_float : String → F
  -- `String(x)` and `x.toFixed(2)`
  pub show : F → String
  pub to_fixed : F → String
  -- a text as `JSON.stringify` quotes it
  pub quote : String → String
  -- `new Date(v).toISOString()`; `none` for an invalid date, which throws
  pub iso_date : Option (Json F) → Option String
  -- a property that is not an own field of an object
  pub built_in : Json F → String → Option (Json F)

abbrev show_bool : Bool → String
show_bool true = "true"
show_bool false = "false"

module _ {F : Type 0} ⦃js : Runtime F⦄ where
  unfoldable mutual
    -- `JSON.stringify(v)`
    pub stringify : Json F → String
    stringify null = "null"
    stringify (bool b) = show_bool b
    stringify (num x) = js.show x
    stringify (str s) = js.quote s
    stringify (arr vs) = "[" ^^ stringify_items vs ^^ "]"
    stringify (obj fs) = "{" ^^ stringify_fields fs ^^ "}"

    stringify_items : Items F → String
    stringify_items nil = ""
    stringify_items (cons v nil) = stringify v
    stringify_items (cons v (cons w vs)) = stringify v ^^ "," ^^ stringify_items (cons w vs)

    pub stringify_fields : Fields F → String
    stringify_fields end = ""
    stringify_fields (field k v end) = js.quote k ^^ ":" ^^ stringify v
    stringify_fields (field k v (field j w fs)) =
        js.quote k ^^ ":" ^^ stringify v ^^ "," ^^ stringify_fields (field j w fs)

  unfoldable mutual
    -- `String(v)`
    pub to_string : Json F → String
    to_string null = "null"
    to_string (bool b) = show_bool b
    to_string (num x) = js.show x
    to_string (str s) = s
    to_string (arr vs) = join "," (texts vs)
    to_string (obj fs) = "[object Object]"

    -- The elements of an array as its `join` prints them: `null` as the empty text.
    texts : Items F → List String
    texts nil = []
    texts (cons v vs) = (elim v [ null ↦ "" | _ ↦ to_string v ]) ∷ texts vs
