-- ===== src/Security/Content.antt =====
-- What `SecurityValidator.validate` (apps/api/src/validation/security/security.validator.ts) says of
-- the texts that stand in the parameters of a request, at any depth.
use mini_sentinel.Prelude.{
  ℕ, suc, ◌≤◌, String, Bool, true, false, List, [], ◌∷◌, ◌++◌, ◌≡◌, any, length, is_empty,
  is_empty-append, arith, ◌&&◌,
}
use mini_sentinel.Values.Json.{items, Json, str, arr, obj, Items, cons, Fields, field}
use mini_sentinel.Values.Runtime.{Runtime}
use mini_sentinel.Types.{ParsedRequest}
use mini_sentinel.Security.Scan.{
  Found, ◌then_found◌, key_issues, size_failures, injection_patterns, text_issues, pattern_issues,
  char_issues, scan_params, scan_items, scan_fields,
}
use mini_sentinel.Security.Validator.{
  Settings, found_in, content_failures, issue_failures, security_failures, security_risk,
  size_failure, signature_failure, validate_security,
}

-- A text stands somewhere in a value.
mutual
  pub data Occurs {F : Type 0} (s : String) : Json F → Type 0 where
    here : {t : String} → t ≡ s → Occurs s (str t)
    in_array : {vs : Items F} → OccursItems s vs → Occurs s (arr vs)
    in_object : {fs : Fields F} → OccursFields s fs → Occurs s (obj fs)

  pub data OccursItems {F : Type 0} (s : String) : Items F → Type 0 where
    first : {v : Json F} {vs : Items F} → Occurs s v → OccursItems s (cons v vs)
    later : {v : Json F} {vs : Items F} → OccursItems s vs → OccursItems s (cons v vs)

  pub data OccursFields {F : Type 0} (s : String) : Fields F → Type 0 where
    at_key : {k : String} {v : Json F} {fs : Fields F} → Occurs s v → OccursFields s (field k v fs)
    further :
        {k : String} {v : Json F} {fs : Fields F}
        → OccursFields s fs
        → OccursFields s (field k v fs)

abbrev is_clean : Found → Bool
is_clean f = is_empty f.failures && is_empty f.issues

then-left : (a b : Found) → is_clean a ≡ false → is_clean (◌then_found◌ a b) ≡ false
then-left a b h =
    ground (arith, is_empty-append a.failures b.failures, is_empty-append a.issues b.issues)

then-right : (a b : Found) → is_clean b ≡ false → is_clean (◌then_found◌ a b) ≡ false
then-right a b h =
    ground (arith, is_empty-append a.failures b.failures, is_empty-append a.issues b.issues)

issue_failures-ne :
    (f : Found) → is_clean f ≡ false → is_empty (f.failures ++ issue_failures f.issues) ≡ false
unfolding issue_failures
issue_failures-ne f h = ground (arith, is_empty-append f.failures (issue_failures f.issues))

module _ (test : String → String → Bool) where
  pattern_issues-ne :
      (ps : List String) (s : String)
      → any (λ p. test p s) ps ≡ true
      → is_empty (pattern_issues test ps s) ≡ false
  unfolding pattern_issues
  pattern_issues-ne [] s h = cc
  pattern_issues-ne (p ∷ ps) s h = ground (arith, pattern_issues-ne ps s)

  text_issues-ne :
      (s : String)
      → any (λ p. test p s) injection_patterns ≡ true
      → is_empty (text_issues test s) ≡ false
  unfolding text_issues
  text_issues-ne s h =
      let found = pattern_issues test injection_patterns s in
      ground (
        arith,
        is_empty-append found (char_issues test s),
        pattern_issues-ne injection_patterns s h,
      )

module _ {F : Type 0} ⦃js : Runtime F⦄ (test : String → String → Bool) where
  mutual
    unfolding scan_params scan_items scan_fields

    scan-Occurs :
        (s : String)
        → is_empty (text_issues test s) ≡ false
        → (depth : ℕ) {v : Json F} → Occurs s v
        → is_clean (scan_params test depth v) ≡ false
    scan-Occurs s e depth (here {t} same) = rw same (ground arith)
    scan-Occurs s e depth (in_array {vs} o) =
        let sizes = size_failures (λ n. js.show (js.lit n 0)) (length (items vs)) in
        ground (
          arith,
          then-right (record { failures = sizes; issues = [] }) (scan_items test (suc depth) vs),
          scan_items-Occurs s e (suc depth) o,
        )
    scan-Occurs s e depth (in_object {fs} o) = ground (arith, scan_fields-Occurs s e (suc depth) o)

    scan_items-Occurs :
        (s : String)
        → is_empty (text_issues test s) ≡ false
        → (depth : ℕ) {vs : Items F} → OccursItems s vs
        → is_clean (scan_items test depth vs) ≡ false
    scan_items-Occurs s e depth (first {v} {vs} o) =
        then-left (scan_params test depth v) (scan_items test depth vs) (scan-Occurs s e depth o)
    scan_items-Occurs s e depth (later {v} {vs} o) =
        then-right (scan_params test depth v) (scan_items test depth vs)
          (scan_items-Occurs s e depth o)

    scan_fields-Occurs :
        (s : String)
        → is_empty (text_issues test s) ≡ false
        → (depth : ℕ) {fs : Fields F} → OccursFields s fs
        → is_clean (scan_fields test depth fs) ≡ false
    scan_fields-Occurs s e depth (at_key {k} {v} {fs} o) =
        let found = scan_params test depth v in
        then-left (record found { issues = key_issues k ++ found.issues })
          (scan_fields test depth fs)
          (then-right (record { failures = []; issues = key_issues k }) found
            (scan-Occurs s e depth o))
    scan_fields-Occurs s e depth (further {k} {v} {fs} o) =
        let found = scan_params test depth v in
        then-right (record found { issues = key_issues k ++ found.issues })
          (scan_fields test depth fs) (scan_fields-Occurs s e depth o)

  -- With the detection on, a request in whose parameters a text that matches an injection pattern
  -- stands anywhere, at any depth, fails the validation with a risk score of at least 0.8.
  pub injection-refused :
      (settings : Settings) (request : ParsedRequest F) (s : String)
      → settings.enable_prompt_injection_detection ≡ true
      → any (λ p. test p s) injection_patterns ≡ true
      → Occurs s (obj request.parameters)
      → ((validate_security test settings request).passed ≡ false)
        × (8000 ≤ (validate_security test settings request).risk_score)
  unfolding validate_security security_failures content_failures found_in security_risk
  injection-refused settings request s on hit o =
      let found = scan_params test 1 (obj request.parameters) in
      let content : is_empty (content_failures test settings request) ≡ false =
        rw on (issue_failures-ne found (scan-Occurs s (text_issues-ne test s hit) 1 o)) in
      let size = size_failure test settings request in
      let signed = signature_failure test settings request in
      let some_failure : is_empty (security_failures test settings request) ≡ false = ground (
        arith,
        content,
        is_empty-append size (signed ++ content_failures test settings request),
        is_empty-append signed (content_failures test settings request),
      ) in
      (some_failure, ground (arith, some_failure))
