-- ===== src/Security/Validator.antt =====
-- `SecurityValidator.validate` of apps/api/src/validation/security/security.validator.ts.
use Prim.Native.String.{len}
use mini_sentinel.Prelude.{
  ℕ, suc, String, Bool, true, false, not, Option, none, some, List, [], ◌∷◌, ◌++◌, ◌&&◌,
  if◌then◌else◌, ltb, eqb, any, is_empty, join, ◌^^◌,
}
use mini_sentinel.Values.Json.{Json, bool, num, str, arr, obj, Items, nil, cons, end, field, get}
use mini_sentinel.Values.Runtime.{Runtime, stringify}
use mini_sentinel.Values.Coerce.{holds}
use mini_sentinel.Types.{
  ParsedRequest, ValidationCheck, ValidationFailure, high, critical, is_critical, CheckStatus, pass,
  fail, security_validation,
}
use mini_sentinel.Security.Scan.{Found, max_length, failure, scan_params}

-- `security_settings`; a size of 0 or no size means the default.
pub record Settings : Type 0 where
  pub enable_prompt_injection_detection : Bool
  pub max_request_size_bytes : Option ℕ
  pub require_request_signatures : Bool

pub record Performed (F : Type 0) : Type 0 where
  pub name : String
  pub passed : Bool
  pub details : Json F

abbrev status_of : Bool → CheckStatus
status_of true = pass
status_of false = fail

abbrev texts : {F : Type 0} → List String → Items F
texts [] = nil
texts (s ∷ ss) = cons (str s) (texts ss)

abbrev max_size : Settings → ℕ
max_size settings = elim settings.max_request_size_bytes [
  | none ↦ max_length
  | some n ↦ if eqb n 0 then max_length else n
]

-- `failures.length > 0 ? (failures.some(CRITICAL) ? 1.0 : 0.8) : 0.0`
unfoldable pub security_risk : List ValidationFailure → ℕ
security_risk failures =
    if is_empty failures
    then 0
    else if any (λ f. is_critical f.severity) failures
    then 10000
    else 8000

pub record SecurityResult (F : Type 0) : Type 0 where
  pub passed : Bool
  pub checks : List (ValidationCheck F)
  pub failures : List ValidationFailure
  pub risk_score : ℕ

unfoldable pub issue_failures : List String → List ValidationFailure
issue_failures [] = []
issue_failures issues = failure "PROMPT_INJECTION_OR_CHAR_VIOLATION" (join " | " issues) high ∷ []

module _ {F : Type 0} ⦃js : Runtime F⦄ (test : String → String → Bool) (settings : Settings) where
  -- `Buffer.byteLength(JSON.stringify(request.raw))`
  unfoldable pub request_size : ParsedRequest F → ℕ
  request_size request = len (stringify request.raw)

  unfoldable pub too_large : ParsedRequest F → Bool
  unfolding request_size
  too_large request = ltb (max_size settings) (request_size request)

  abbrev signature : Json F → Option (Json F)
  signature (obj fs) = get "signature" fs
  signature v = none

  unfoldable pub lacks_signature : ParsedRequest F → Bool
  lacks_signature request =
      settings.require_request_signatures && not (holds (signature request.raw))

  unfoldable pub size_failure : ParsedRequest F → List ValidationFailure
  unfolding request_size too_large
  size_failure request =
      if too_large request
      then failure "REQUEST_SIZE_LIMIT"
          ("Request size of "
            ^^ js.show (js.lit (request_size request) 0)
            ^^ " bytes exceeds the maximum allowed limit of "
            ^^ js.show (js.lit (max_size settings) 0)
            ^^ " bytes.")
          critical
        ∷ []
      else []

  unfoldable pub signature_failure : ParsedRequest F → List ValidationFailure
  unfolding lacks_signature
  signature_failure request =
      if lacks_signature request
      then failure "SIGNATURE_REQUIRED"
          "Cryptographic signature is required but missing from the request." critical
        ∷ []
      else []

  -- `scanParams(request.parameters, 1)`
  unfoldable pub found_in : ParsedRequest F → Found
  found_in request = scan_params test 1 (obj request.parameters)

  unfoldable pub content_failures : ParsedRequest F → List ValidationFailure
  content_failures request =
      if settings.enable_prompt_injection_detection
      then (found_in request).failures ++ issue_failures (found_in request).issues
      else []

  abbrev content_details : List String → Json F
  content_details [] = obj (field "status" (str "Clean") end)
  content_details issues = obj (field "issues" (arr (texts issues)) end)

  unfoldable pub performed : ParsedRequest F → List (Performed F)
  unfolding found_in too_large lacks_signature request_size
  performed request =
      (record {
        name = "Request Size Check";
        passed = not (too_large request);
        details = obj (
            field "requestSize" (num (js.lit (request_size request) 0))
              (field "maxSize" (num (js.lit (max_size settings) 0)) end));
      })
      ∷ (record {
        name = "Signature Check";
        passed = not (lacks_signature request);
        details =
            if lacks_signature request
            then obj (field "required" (bool true) (field "present" (bool false) end))
            else obj (field "required" (bool settings.require_request_signatures) end);
      })
      ∷ (if settings.enable_prompt_injection_detection
          then (record {
            name = "Content Boundary Check";
            passed = is_empty (found_in request).issues;
            details = content_details (found_in request).issues;
          })
            ∷ []
          else [])

  unfoldable pub number_checks : ℕ → List (Performed F) → List (ValidationCheck F)
  number_checks idx [] = []
  number_checks idx (p ∷ ps) =
      (record {
        id = "sec_" ^^ js.show (js.lit idx 0);
        type = security_validation;
        name = p.name;
        description = "Verify system security boundary: " ^^ p.name;
        status = status_of p.passed;
        result = p.details;
        error = none;
        rule_id = none;
      })
      ∷ number_checks (suc idx) ps

  unfoldable pub security_failures : ParsedRequest F → List ValidationFailure
  security_failures request =
      size_failure request ++ (signature_failure request ++ content_failures request)

  -- `validate(request)`
  unfoldable pub validate_security : ParsedRequest F → SecurityResult F
  validate_security request = record {
    passed = is_empty (security_failures request);
    checks = number_checks 0 (performed request);
    failures = security_failures request;
    risk_score = security_risk (security_failures request);
  }
