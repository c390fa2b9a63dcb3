-- ===== src/Values/Coerce.antt =====
-- The conversions that the source's operators make, and the walk along a path of keys.
use Prim.Native.Char.{Char, code}
use Prim.Native.String
use mini_sentinel.Prelude.{
  ℕ, String, Bool, true, false, not, Option, none, some, List, [], ◌∷◌, ◌++◌, if◌then◌else◌, ◌==◌,
  ◌||◌, eqb,
}
use mini_sentinel.Values.Json.{Json, null, bool, num, str, arr, obj, get}
use mini_sentinel.Values.Runtime.{Runtime, to_string}

abbrev pub append_char : String → Char → String
append_char s c = String.◌++◌ s (String.◌∷◌ c String.[])

split_from : ℕ → List String → String → String → List String
split_from sep parts cur String.[] = parts ++ cur ∷ []
split_from sep parts cur (String.◌∷◌ ch s) =
    let closed = split_from sep (parts ++ cur ∷ []) "" s in
    let longer = split_from sep parts (append_char cur ch) s in
    if eqb (code ch) sep then closed else longer

-- `s.split(c)` at a separator of one character
unfoldable pub split : ℕ → String → List String
unfolding split_from
split sep s = split_from sep [] "" s

module _ {F : Type 0} ⦃js : Runtime F⦄ where
  -- `!!v`
  abbrev pub truthy : Json F → Bool
  truthy null = false
  truthy (bool b) = b
  truthy (num x) = not (js.eq x (js.lit 0 0) || js.is_nan x)
  truthy (str s) = not (s == "")
  truthy (arr vs) = true
  truthy (obj fs) = true

  -- the same where the value may be `undefined`
  abbrev pub holds : Option (Json F) → Bool
  holds none = false
  holds (some v) = truthy v

  -- `Number(v)`
  abbrev pub number_of : Json F → F
  number_of null = js.lit 0 0
  number_of (bool true) = js.lit 1 0
  number_of (bool false) = js.lit 0 0
  number_of (num x) = x
  number_of (str s) = js.number s
  number_of (arr vs) = js.number (to_string (arr vs))
  number_of (obj fs) = js.number (to_string (obj fs))

  abbrev pub number_opt : Option (Json F) → F
  number_opt none = js.nan
  number_opt (some v) = number_of v

  -- `String(v)`, where the value may be `undefined`
  abbrev pub text_of : Option (Json F) → String
  text_of none = "undefined"
  text_of (some v) = to_string v

  -- `v || w`
  abbrev pub or_else : Option (Json F) → Option (Json F) → Option (Json F)
  or_else v w = if holds v then v else w

  -- `parseFloat(v)`, which reads the text of its argument
  abbrev pub parse_float_of : Json F → F
  parse_float_of v = js.parse_float (to_string v)

  -- `v[key]`: an own field first, then what the engine provides
  unfoldable pub prop : Json F → String → Option (Json F)
  unfolding get
  prop (obj fs) key = elim (get key fs) [ some v ↦ some v | none ↦ js.built_in (obj fs) key ]
  prop v key = js.built_in v key

  -- `v?.key` on a value that may be `undefined` or `null`
  unfoldable pub opt_prop : Option (Json F) → String → Option (Json F)
  unfolding prop
  opt_prop none key = none
  opt_prop (some null) key = none
  opt_prop (some v) key = prop v key

  -- `a || b || … || d`, printed: the first truthy value, or the text `d`
  unfoldable pub first_truthy : List (Option (Json F)) → String → String
  first_truthy [] d = d
  first_truthy (none ∷ vs) d = first_truthy vs d
  first_truthy (some v ∷ vs) d = if truthy v then to_string v else first_truthy vs d

  -- one step of the walk, `acc && acc[part]`
  step : Option (Json F) → String → Option (Json F)
  unfolding prop
  step none part = none
  step (some v) part = if truthy v then prop v part else some v

  walk : Option (Json F) → List String → Option (Json F)
  unfolding step
  walk acc [] = acc
  walk acc (part ∷ parts) = walk (step acc part) parts

  -- `getNestedValue(obj, path)`
  unfoldable pub get_nested_value : Json F → String → Option (Json F)
  unfolding walk split
  get_nested_value v path = if path == "" then none else walk (some v) (split b'.' path)
