-- ===== src/Values/Printed.antt =====
-- What the text that `JSON.stringify` prints of an object literal says about its properties.
use mini_sentinel.Prelude.{
  String, Option, none, some, List, [], ◌∷◌, ◌++◌, ◌≡◌, refl, sym, ◌∙◌, ap, ◌^^◌,
}
use mini_sentinel.Values.Json.{Json, Fields, end, field, obj, object}
use mini_sentinel.Values.Runtime.{Runtime, stringify, stringify_fields}
use text.Mathlib.TextLemmas.{append_assoc, append-nil, append_cancel_left, append_cancel_right}

module _ {F : Type 0} ⦃js : Runtime F⦄ where
  -- What `JSON.stringify` prints after a field.
  abbrev rest_of : Fields F → String
  rest_of end = ""
  rest_of (field k v fs) = "," ^^ stringify_fields (field k v fs)

  field-text :
      (k : String) (v : Json F) (fs : Fields F)
      → stringify_fields (field k v fs) ≡ (js.quote k ^^ ":") ^^ (stringify v ^^ rest_of fs)
  unfolding stringify_fields
  field-text k v end = sym (
      append_assoc (js.quote k) ":" _
      ∙ ap (λ t. js.quote k ^^ (":" ^^ t)) (append-nil (stringify v)))
  field-text k v (field j w fs) = sym (append_assoc (js.quote k) ":" _)

  object-rest :
      (before after : List (String × Option (Json F))) (k : String) (v : Json F)
      → rest_of (object (before ++ (k, some v) ∷ after))
        ≡ "," ^^ stringify_fields (object (before ++ (k, some v) ∷ after))
  unfolding object
  object-rest [] after k v = refl
  object-rest ((j, none) ∷ before) after k v = object-rest before after k v
  object-rest ((j, some x) ∷ before) after k v = refl

  -- The text of an object literal determines the text of one of its properties, the others being equal.
  property-text :
      (before : List (String × Option (Json F))) (k : String) (v w : Json F)
      (after : List (String × Option (Json F)))
      → stringify_fields (object (before ++ (k, some v) ∷ after))
        ≡ stringify_fields (object (before ++ (k, some w) ∷ after))
      → stringify v ≡ stringify w
  unfolding object
  property-text [] k v w after e = append_cancel_right (stringify v) (stringify w) _ (
      append_cancel_left (js.quote k ^^ ":") _ _
        (sym (field-text k v (object after)) ∙ e ∙ field-text k w (object after)))
  property-text ((j, none) ∷ before) k v w after e = property-text before k v w after e
  property-text ((j, some x) ∷ before) k v w after e = property-text before k v w after (
      append_cancel_left "," _ _ (
        sym (object-rest before after k v)
        ∙ append_cancel_left (stringify x) _ _ (
            append_cancel_left (js.quote j ^^ ":") _ _ (
              sym (field-text j x (object (before ++ (k, some v) ∷ after)))
              ∙ e
              ∙ field-text j x (object (before ++ (k, some w) ∷ after))))
        ∙ object-rest before after k w))

  obj-text :
      (fs gs : Fields F)
      → stringify (obj fs) ≡ stringify (obj gs)
      → stringify_fields fs ≡ stringify_fields gs
  unfolding stringify
  obj-text fs gs e = append_cancel_right _ _ "}" (append_cancel_left "{" _ _ e)

  -- The same for the text of the object.
  pub column-text :
      (before : List (String × Option (Json F))) (k : String) (v w : Json F)
      (after : List (String × Option (Json F)))
      → stringify (obj (object (before ++ (k, some v) ∷ after)))
        ≡ stringify (obj (object (before ++ (k, some w) ∷ after)))
      → stringify v ≡ stringify w
  column-text before k v w after e = property-text before k v w after (obj-text _ _ e)
