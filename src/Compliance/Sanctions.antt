-- ===== src/Compliance/Sanctions.antt =====
-- What the list of sanctions in `evaluateOFAC` of
-- apps/api/src/validation/compliance/rule.engine.ts refuses.
use mini_sentinel.Prelude.{
  ℕ, String, true, false, none, some, List, [], ◌∷◌, ◌++◌, ◌≡◌, refl, ◌∙◌, ap, ◌==◌, ◌^^◌,
  Bool-cases, inl, inr, ◌≢◌, any_middle, name_has, eq_iff, codes, to_upper, includes,
}
use mini_sentinel.Values.Json.{str}
use mini_sentinel.Values.Runtime.{Runtime}
use mini_sentinel.Values.Coerce.{get_nested_value}
use mini_sentinel.Types.{ParsedRequest, ComplianceRule, ofac, critical}
use mini_sentinel.Compliance.Params.{request_json}
use mini_sentinel.Compliance.Checkers.{evaluate_ofac, is_sanctioned, folded}
use mini_sentinel.Compliance.Engine.{
  Services, run_rule, failures_of, kind_of, severity_of, failures_with,
}
use mini_sentinel.Compliance.Trim.{is_blank, trim, trim-IsInfix, trim-blank, includes-IsInfix}

-- A name holds a listed one, where spaces around the listed one and the case of letters do not count.
held-is_sanctioned :
    (name listed : String) (before after : List String) (s x t u v : List ℕ)
    → to_upper (codes listed) ≡ s ++ (x ++ t)
    → is_blank s ≡ true
    → is_blank t ≡ true
    → to_upper (codes name) ≡ u ++ (x ++ v)
    → is_sanctioned name (before ++ listed ∷ after) ≡ true
unfolding is_sanctioned folded
held-is_sanctioned name listed before after s x t u v text hs ht held =
    any_middle (λ n. includes (folded name) (folded n)) before after listed
      (ap (includes (folded name)) (ap trim text ∙ trim-blank s x t hs ht)
        ∙ includes-IsInfix (trim x) (folded name)
            (trim-IsInfix x (to_upper (codes name)) (u, v, held)))

module _ {F : Type 0} ⦃js : Runtime F⦄ where
  sanctioned-failure :
      (services : Services F) (request : ParsedRequest F) (rule : ComplianceRule F) (name : String)
      → rule.type ≡ ofac
      → name_has rule.name "bankruptcy" ≡ false
      → rule.conditions ≡ none
      → rule.field ≡ ""
      → get_nested_value (request_json request) "parameters.fullName" ≡ some (str name)
      → name ≢ ""
      → is_sanctioned name services.sanctions ≡ true
      → failures_of services request rule
        ≡ (record {
          rule = rule.name;
          reason = "OFAC Sanction Match detected for name: " ^^ name;
          severity = critical;
        })
          ∷ []
  unfolding failures_of run_rule kind_of evaluate_ofac failures_with severity_of
  sanctioned-failure services request rule name typed named plain unset given some_name hit =
      let named_some : (name == "") ≡ false = elim (Bool-cases (name == "")) [
        | inl same ↦ absurd (some_name ((eq_iff name "").0 same))
        | inr e ↦ e
      ] in
      simp (typed, named, plain, unset, given, named_some, hit) refl

  -- A rule of type OFAC, without conditions and without a field of its own, whose name lacks the word
  -- "bankruptcy", gives one failure, a CRITICAL one, when the full name of the request is not empty and
  -- holds a listed name in any case of its letters, whatever stands before and after it in the request,
  -- and whatever spaces stand around it in the list.
  pub held_name-failure :
      (services : Services F) (request : ParsedRequest F) (rule : ComplianceRule F)
      (name listed : String) (before after : List String) (s x t u v : List ℕ)
      → rule.type ≡ ofac
      → name_has rule.name "bankruptcy" ≡ false
      → rule.conditions ≡ none
      → rule.field ≡ ""
      → get_nested_value (request_json request) "parameters.fullName" ≡ some (str name)
      → name ≢ ""
      → services.sanctions ≡ before ++ listed ∷ after
      → to_upper (codes listed) ≡ s ++ (x ++ t)
      → is_blank s ≡ true
      → is_blank t ≡ true
      → to_upper (codes name) ≡ u ++ (x ++ v)
      → failures_of services request rule
        ≡ (record {
          rule = rule.name;
          reason = "OFAC Sanction Match detected for name: " ^^ name;
          severity = critical;
        })
          ∷ []
  held_name-failure services request rule name listed before after s x t u v typed named plain unset
        given some_name list text hs ht held =
      sanctioned-failure services request rule name typed named plain unset given some_name (
        ap (is_sanctioned name) list
        ∙ held-is_sanctioned name listed before after s x t u v text hs ht held)
