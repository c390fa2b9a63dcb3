-- ===== src/Compliance/Outcome.antt =====
-- What `RuleEngine.evaluate` of apps/api/src/validation/compliance/rule.engine.ts returns, in terms of
-- the outcome of each enabled rule.
use mini_sentinel.Prelude.{
  String, Bool, not, List, [], ◌∷◌, ◌++◌, map, filter, if◌then◌else◌, ◌≡◌, refl, sym, append-nil,
  append_assoc, map-append, arith, is_empty, all, filter-append,
}
use mini_sentinel.Values.Runtime.{Runtime}
use mini_sentinel.Types.{ParsedRequest, ValidationCheck, ValidationFailure, is_pass, ComplianceRule}
use mini_sentinel.Compliance.Params.{Evaluated, returned, threw}
use mini_sentinel.Compliance.Engine.{
  status_of, Services, normalized, check_of, run_rule, failures_with, failures_of, loop, evaluate,
  enabled_rules,
}

-- The name of a rule that did not pass.
abbrev name_unless : Bool → String → List String
name_unless passed name = if passed then [] else name ∷ []

module _ {F : Type 0} where
  abbrev pub names_not_passed : List (ValidationCheck F) → List String
  names_not_passed cs = map (λ c. c.name) (filter (λ c. not (is_pass c.status)) cs)

  names_not_passed-append :
      (cs ds : List (ValidationCheck F))
      → names_not_passed (cs ++ ds) ≡ names_not_passed cs ++ names_not_passed ds
  names_not_passed-append cs ds =
      grind (arith, filter-append (λ c. not (is_pass c.status)) cs ds, map-append)

  is_empty-names_not_passed :
      (cs : List (ValidationCheck F))
      → is_empty (names_not_passed cs) ≡ all (λ c. is_pass c.status) cs
  is_empty-names_not_passed [] = refl
  is_empty-names_not_passed (c ∷ cs) = ground (arith, is_empty-names_not_passed cs)

abbrev pub failed_rules : List ValidationFailure → List String
failed_rules fs = map (λ f. f.rule) fs

is_empty-failed_rules : (fs : List ValidationFailure) → is_empty (failed_rules fs) ≡ is_empty fs
is_empty-failed_rules [] = refl
is_empty-failed_rules (f ∷ fs) = refl

failures_with-names :
    {F : Type 0} (rule : ComplianceRule F) (e : Evaluated F)
    → failed_rules (failures_with rule e) ≡ name_unless (is_pass (status_of e)) rule.name
unfolding failures_with
failures_with-names rule (returned c) = ground arith
failures_with-names rule (threw message) = refl

module _ {F : Type 0} ⦃js : Runtime F⦄ (services : Services F) where
  loop-checks :
      (request : ParsedRequest F) (rules : List (ComplianceRule F)) (cs : List (ValidationCheck F))
      (fs : List ValidationFailure)
      → (loop services request rules cs fs).checks
        ≡ cs ++ map (check_of services request) (enabled_rules rules)
  unfolding loop
  loop-checks request [] cs fs = sym (append-nil cs)
  loop-checks request (r ∷ rs) cs fs = grind (
    arith,
    append_assoc,
    loop-checks request rs cs fs,
    loop-checks request rs (cs ++ check_of services request r ∷ [])
        (fs ++ failures_of services request r),
  )

  -- The checks are those of the enabled rules, in their order, on the normalised request.
  pub evaluate-checks :
      (rules : List (ComplianceRule F)) (request : ParsedRequest F)
      → (evaluate services rules request).checks
        ≡ map (check_of services (normalized services request)) (enabled_rules rules)
  unfolding evaluate
  evaluate-checks rules request = loop-checks (normalized services request) rules [] []

  failures_of-names :
      (request : ParsedRequest F) (rule : ComplianceRule F)
      → failed_rules (failures_of services request rule)
        ≡ names_not_passed (check_of services request rule ∷ [])
  unfolding failures_of check_of
  failures_of-names request rule =
      ground (arith, failures_with-names rule (run_rule services request rule))

  loop-failures :
      (request : ParsedRequest F) (rules : List (ComplianceRule F)) (cs : List (ValidationCheck F))
      (fs : List ValidationFailure)
      → failed_rules fs ≡ names_not_passed cs
      → failed_rules (loop services request rules cs fs).failures
        ≡ names_not_passed (loop services request rules cs fs).checks
  unfolding loop
  loop-failures request [] cs fs h = h
  loop-failures request (r ∷ rs) cs fs h =
      let c = check_of services request r in
      let pushed : failed_rules (fs ++ failures_of services request r)
          ≡ names_not_passed (cs ++ c ∷ []) =
        grind (
          arith,
          h,
          map-append,
          names_not_passed-append cs (c ∷ []),
          failures_of-names request r,
        ) in
      ground (
        arith,
        loop-failures request rs cs fs h,
        loop-failures request rs (cs ++ c ∷ []) (fs ++ failures_of services request r) pushed,
      )

  loop-passed :
      (request : ParsedRequest F) (rules : List (ComplianceRule F)) (cs : List (ValidationCheck F))
      (fs : List ValidationFailure)
      → (loop services request rules cs fs).passed
        ≡ is_empty (loop services request rules cs fs).failures
  unfolding loop
  loop-passed request [] cs fs = refl
  loop-passed request (r ∷ rs) cs fs = ground (
    arith,
    loop-passed request rs cs fs,
    loop-passed request rs (cs ++ check_of services request r ∷ [])
        (fs ++ failures_of services request r),
  )

  -- The failures name the rules of the checks that did not pass, in order, a rule that threw included, and the result has passed exactly when every check has passed.
  pub evaluate-failures :
      (rules : List (ComplianceRule F)) (request : ParsedRequest F)
      → (failed_rules (evaluate services rules request).failures
          ≡ names_not_passed (evaluate services rules request).checks)
        × ((evaluate services rules request).passed
            ≡ all (λ c. is_pass c.status) (evaluate services rules request).checks)
  unfolding evaluate
  evaluate-failures rules request =
      let r = evaluate services rules request in
      let names = loop-failures (normalized services request) rules [] [] refl in
      (
        names,
        ground (
          arith,
          names,
          is_empty-names_not_passed r.checks,
          is_empty-failed_rules r.failures,
          loop-passed (normalized services request) rules [] [],
        ),
      )

  pub evaluate-passed :
      (rules : List (ComplianceRule F)) (request : ParsedRequest F)
      → (evaluate services rules request).passed
        ≡ is_empty (evaluate services rules request).failures
  unfolding evaluate
  evaluate-passed rules request = loop-passed (normalized services request) rules [] []
