-- ===== src/Compliance/Conditions.antt =====
-- `evaluateSampleRuleConditions` of apps/api/src/validation/compliance/rule.engine.ts: the rules that
-- carry a list of conditions. The first condition that fails decides.
use mini_sentinel.Prelude.{
  String, Bool, true, false, not, Option, none, some, [], ◌∷◌, if◌then◌else◌, ◌&&◌, ◌||◌, ◌==◌,
  ◌^^◌,
}
use mini_sentinel.Values.Json.{Json, null, num, str, obj, Items, nil, cons, object}
use mini_sentinel.Values.Runtime.{Runtime}
use mini_sentinel.Values.Coerce.{
  holds, number_of, number_opt, text_of, prop, opt_prop, first_truthy, get_nested_value,
}
use mini_sentinel.Types.{ComplianceRule}
use mini_sentinel.Compliance.Params.{Checked, skipped_check, Evaluated, returned, threw}

-- What a condition comes to: the next one, or the end of the rule.
pub data Verdict (F : Type 0) : Type 0 where
  passes : Verdict F
  fails : Checked F → Verdict F

abbrev pub is_text : {F : Type 0} → Option (Json F) → String → Bool
is_text (some (str s)) t = s == t
is_text _ t = false

module _ {F : Type 0} ⦃js : Runtime F⦄ where
  -- percentages against fractions: a value is brought to the scale of the target
  unfoldable pub rescale : F → F → F
  rescale target x =
      if js.lt target (js.lit 10 1) && js.lt (js.lit 10 1) x
      then js.div x (js.lit 100 0)
      else if js.lt (js.lit 10 1) target && js.lt x (js.lit 10 1)
      then js.mul x (js.lit 100 0)
      else x

  -- the `switch` on the operator
  unfoldable pub compare_by : Option (Json F) → F → F → Bool
  compare_by op x target =
      if is_text op "gte"
      then js.le target x
      else if is_text op "lte"
      then js.le x target
      else if is_text op "gt"
      then js.lt target x
      else if is_text op "lt"
      then js.lt x target
      else if is_text op "eq"
      then js.eq x target
      else if is_text op "neq"
      then not (js.eq x target)
      else true

  -- `debt / income` where both are given, for a ratio that is missing
  abbrev ratio : Option (Json F) → Option (Json F) → Option (Json F)
  ratio (some income) (some debt) =
      if holds (some income) && holds (some debt)
      then some (num (js.div (number_of debt) (number_of income)))
      else none
  ratio _ _ = none

  module _ (request : Json F) (rule : ComplianceRule F) where
    -- `getNestedValue(request, "parameters.…")`
    abbrev param : String → Option (Json F)
    param key = get_nested_value request ("parameters." ^^ key)

    abbrev threshold_value : Option (Json F) → Option (Json F) → Option (Json F)
    threshold_value name (some v) = some v
    threshold_value name none =
        if is_text name "debt_to_income_ratio" || is_text name "dti"
        then ratio (param "monthlyIncome") (param "monthlyDebt")
        else none

    -- `failDetails.message || …`
    abbrev fail_message : String → String
    fail_message otherwise =
        if holds rule.action_params
        then first_truthy (opt_prop rule.action_params "message" ∷ []) otherwise
        else "Condition failed"

    missing : Option (Json F) → Json F → Verdict F
    missing name cond = fails (record {
      passed = false;
      reason = "Missing parameter: '" ^^ text_of name ^^ "'";
      details = cond;
    })

    judge : Bool → String → Json F → Verdict F
    judge true reason details = passes
    judge false reason details =
        fails (record { passed = false; reason = fail_message reason; details = details })

    threshold_with : Json F → Option (Json F) → Option (Json F) → Verdict F
    unfolding missing judge rescale compare_by object prop
    threshold_with cond name none = missing name cond
    threshold_with cond name (some v) =
        let op = prop cond "operator" in
        let target = number_opt (prop cond "value") in
        let x = rescale target (number_of v) in
        judge (compare_by op x target)
          ("Field '"
            ^^ text_of name
            ^^ "' failed threshold "
            ^^ text_of op
            ^^ " "
            ^^ js.show target
            ^^ ".")
          (obj (
            object (
              ("field", name)
              ∷ ("val", some (num x))
              ∷ ("op", op)
              ∷ ("targetVal", some (num target))
              ∷ [])))

    range_with : Json F → Option (Json F) → Option (Json F) → Verdict F
    unfolding missing judge object prop
    range_with cond name none = missing name cond
    range_with cond name (some v) =
        let lowest = prop cond "min" in
        let highest = prop cond "max" in
        judge (js.le (number_opt lowest) (number_of v) && js.le (number_of v) (number_opt highest))
          ("Field '"
            ^^ text_of name
            ^^ "' is outside range ["
            ^^ text_of lowest
            ^^ ", "
            ^^ text_of highest
            ^^ "].")
          (obj
            (object (("field", name) ∷ ("val", some v) ∷ ("min", lowest) ∷ ("max", highest) ∷ [])))

    -- the three expressions that are known; any other one holds
    unfoldable pub expression_holds : Option (Json F) → Bool
    expression_holds expr =
        if is_text expr "not cease_communication_requested"
        then not (holds (param "cease_communication_requested"))
        else if is_text expr "not consumer_represented_by_attorney"
        then not (holds (param "consumer_represented_by_attorney"))
        else if is_text expr "not third_party_recipient"
        then not (holds (param "third_party_recipient"))
        else true

    expression_with : Option (Json F) → Verdict F
    unfolding expression_holds judge object
    expression_with expr =
        judge (expression_holds expr) ("Expression constraint failed: " ^^ text_of expr)
          (obj (object (("expression", expr) ∷ [])))

    condition : Json F → Verdict F
    unfolding threshold_with range_with expression_with prop get_nested_value
    condition cond =
        let kind = prop cond "type" in
        let name = prop cond "field" in
        if is_text kind "threshold"
        then threshold_with cond name (threshold_value name (param (text_of name)))
        else if is_text kind "range"
        then range_with cond name (param (text_of name))
        else if is_text kind "expression"
        then expression_with (prop cond "expression")
        else passes

    -- the loop over the conditions; a condition that is `null` throws
    unfoldable pub conditions : Items F → Evaluated F
    unfolding condition
    conditions nil = returned (skipped_check "All conditions met.")
    conditions (cons null conds) = threw "Cannot read properties of null (reading 'type')"
    conditions (cons cond conds) =
        let rest = conditions conds in
        elim (condition cond) [ passes ↦ rest | fails c ↦ returned c ]
