-- ===== src/Compliance/Checkers.antt =====
-- `evaluateQM`, `evaluateOFAC` and `evaluateGeneric` of
-- apps/api/src/validation/compliance/rule.engine.ts.
use mini_sentinel.Prelude.{
  ℕ, String, Bool, true, false, not, Option, none, some, List, [], ◌∷◌, reverse, any, if◌then◌else◌,
  ◌&&◌, ◌||◌, ◌==◌, ◌^^◌, codes, to_lower, to_upper, includes, eqb, leb,
}
use mini_sentinel.Values.Json.{Json, bool, num, str, arr, obj, Items, items, object}
use mini_sentinel.Values.Runtime.{Runtime, to_string, stringify}
use mini_sentinel.Values.Coerce.{truthy, number_of, parse_float_of, get_nested_value}
use mini_sentinel.Types.{
  ComplianceRule, RuleOperator, equals, not_equals, greater_than, less_than, greater_than_or_equal,
  less_than_or_equal, contains, not_contains, starts_with, ends_with, matches_pattern, in_list,
  not_in, between,
}
use mini_sentinel.Compliance.Params.{Checked, checked, skipped_check}

abbrev pub is_space : ℕ → Bool
is_space c = eqb c 0x20 || leb 9 c && leb c 13 || eqb c 0xa0

unfoldable pub drop_spaces : List ℕ → List ℕ
drop_spaces [] = []
drop_spaces (c ∷ s) = let rest = drop_spaces s in if is_space c then rest else c ∷ s

-- `s.toUpperCase().trim()`
unfoldable pub folded : String → List ℕ
unfolding drop_spaces to_upper
folded s = reverse (drop_spaces (reverse (drop_spaces (to_upper (codes s)))))

-- The name holds, or is, one of the sanctioned names.
unfoldable pub is_sanctioned : String → List String → Bool
unfolding folded includes
is_sanctioned full_name names = any (λ name. includes (folded full_name) (folded name)) names

abbrev operator_text : RuleOperator → String
operator_text equals = "EQUALS"
operator_text not_equals = "NOT_EQUALS"
operator_text greater_than = "GREATER_THAN"
operator_text less_than = "LESS_THAN"
operator_text greater_than_or_equal = "GREATER_THAN_OR_EQUAL"
operator_text less_than_or_equal = "LESS_THAN_OR_EQUAL"
operator_text contains = "CONTAINS"
operator_text not_contains = "NOT_CONTAINS"
operator_text starts_with = "STARTS_WITH"
operator_text ends_with = "ENDS_WITH"
operator_text matches_pattern = "MATCHES_PATTERN"
operator_text in_list = "IN"
operator_text not_in = "NOT_IN"
operator_text between = "BETWEEN"

module _ {F : Type 0} ⦃js : Runtime F⦄ (request : Json F) (rule : ComplianceRule F) where
  abbrev computed_dti : Option (Json F) → Option (Json F) → Option (Json F)
  computed_dti (some income) (some debt) =
      if truthy income && truthy debt
      then some (num (js.mul (js.div (number_of debt) (number_of income)) (js.lit 100 0)))
      else none
  computed_dti _ _ = none

  abbrev dti_or : Option (Json F) → Option (Json F) → Option (Json F)
  dti_or (some v) w = some v
  dti_or none w = w

  -- `parsedDti`, a fraction brought to a percentage
  percentage : F → F
  percentage x =
      if js.lt (js.lit 0 0) x && js.lt x (js.lit 10 1) then js.mul x (js.lit 100 0) else x

  abbrev qm_threshold : Json F → Json F
  qm_threshold v = if truthy v then v else num (js.lit 430 1)

  qm_with : Option (Json F) → Checked F
  unfolding percentage object
  qm_with none = skipped_check "No DTI or Debt/Income params provided, skipped check"
  qm_with (some v) =
      let dti = percentage (parse_float_of v) in
      let threshold = qm_threshold rule.value in
      checked (js.le dti (number_of threshold))
        ("Qualified Mortgage DTI threshold of "
          ^^ to_string threshold
          ^^ "% exceeded (Actual: "
          ^^ js.to_fixed dti
          ^^ "%)")
        (obj (object (("dti", some (num dti)) ∷ ("threshold", some threshold) ∷ [])))

  -- `evaluateQM`
  unfoldable pub evaluate_qm : Checked F
  unfolding qm_with get_nested_value
  evaluate_qm = qm_with (
      dti_or (get_nested_value request "parameters.dti") (
        computed_dti (get_nested_value request "parameters.monthlyIncome")
          (get_nested_value request "parameters.monthlyDebt")))

  ofac_with : List String → Option (Json F) → Checked F
  unfolding object
  ofac_with names (some (str full_name)) =
      let hit = is_sanctioned full_name names in
      if full_name == ""
      then skipped_check "No fullName provided, skipped OFAC check"
      else checked (not hit) ("OFAC Sanction Match detected for name: " ^^ full_name)
          (obj (object (("fullName", some (str full_name)) ∷ ("match", some (bool hit)) ∷ [])))
  ofac_with names _ = skipped_check "No fullName provided, skipped OFAC check"

  -- `evaluateOFAC`, given the setting `ofac_sanctions`
  unfoldable pub evaluate_ofac : List String → Checked F
  unfolding ofac_with get_nested_value
  evaluate_ofac names =
      ofac_with names
        (get_nested_value request (if rule.field == "" then "parameters.fullName" else rule.field))

  -- `String(a).toLowerCase().includes(String(b).toLowerCase())`
  abbrev text_includes : Json F → Json F → Bool
  text_includes v w = includes (to_lower (codes (to_string v))) (to_lower (codes (to_string w)))

  -- `ruleVal.map(String).includes(String(value))`
  abbrev listed : Items F → Json F → Bool
  listed ws v = any (λ w. to_string w == to_string v) (items ws)

  abbrev in_array : Json F → Json F → Bool
  in_array (arr ws) v = listed ws v
  in_array _ v = false

  abbrev outside_array : Json F → Json F → Bool
  outside_array (arr ws) v = not (listed ws v)
  outside_array _ v = false

  -- the `switch` on the operator; one that it does not name passes
  unfoldable pub satisfies : RuleOperator → Json F → Bool
  satisfies equals v = to_string v == to_string rule.value
  satisfies not_equals v = not (to_string v == to_string rule.value)
  satisfies greater_than v = js.lt (number_of rule.value) (number_of v)
  satisfies less_than v = js.lt (number_of v) (number_of rule.value)
  satisfies greater_than_or_equal v = js.le (number_of rule.value) (number_of v)
  satisfies less_than_or_equal v = js.le (number_of v) (number_of rule.value)
  satisfies contains v = text_includes v rule.value
  satisfies not_contains v = not (text_includes v rule.value)
  satisfies in_list v = in_array rule.value v
  satisfies not_in v = outside_array rule.value v
  satisfies _ v = true

  generic_with : Option (Json F) → Checked F
  unfolding satisfies object
  generic_with none = skipped_check ("Field " ^^ rule.field ^^ " not found, skipped")
  generic_with (some v) =
      checked (satisfies rule.operator v)
        ("Rule constraint violated: "
          ^^ rule.field
          ^^ " must satisfy "
          ^^ operator_text rule.operator
          ^^ " "
          ^^ stringify rule.value)
        (obj (
          object (
            ("field", some (str rule.field))
            ∷ ("operator", some (str (operator_text rule.operator)))
            ∷ ("actual", some v)
            ∷ ("expected", some rule.value)
            ∷ [])))

  -- `evaluateGeneric`
  unfoldable pub evaluate_generic : Checked F
  unfolding generic_with get_nested_value
  evaluate_generic = generic_with (get_nested_value request rule.field)
