-- ===== src/Gateway/Parser/Accepted.antt =====
-- What `parse` of apps/api/src/interceptors/parsing/parser.service.ts accepts, and what becomes in
-- apps/api/src/common/queue/job.worker.service.ts of a body that it does not accept.
use mini_sentinel.Prelude.{
  String, Bool, true, false, Option, none, some, List, [], ◌∷◌, ◌≡◌, refl, sym, ◌∙◌, ap, map, ◌&&◌,
  is_empty, is_empty-append, ◌==◌, arith,
}
use mini_sentinel.Values.Json.{Json}
use mini_sentinel.Values.Runtime.{Runtime}
use mini_sentinel.Types.{ToolDefinition, ParsedRequest}
use mini_sentinel.Decision.Scan.{Policy, rule_of}
use mini_sentinel.Pipeline.Run.{Validators, validate, parse_check}
use mini_sentinel.Pipeline.Verdicts.{unparsed-block}
use mini_sentinel.Review.Tickets.{Desk}
use mini_sentinel.Worker.Dispatch.{desk_of, observe, dispatch, process_job}
use mini_sentinel.Worker.Run.{classified}
use mini_sentinel.Gateway.Parser.{
  Issue, SafeParse, success, refused, Moment, parsed, Field, missing, text, other, Resolved,
  fallback_tool, found_tool, resolve_tool, read, error_detail, validated_raw, assemble, read_fields,
  parse_raw, parse, parse_of, ◌>>=◌,
}

is_found : Option ToolDefinition → Bool
is_found none = false
is_found (some tool) = true

is_registered : (String → Option ToolDefinition) → Field → Bool
unfolding is_found
is_registered get_tool (text name) = is_found (get_tool name)
is_registered get_tool _ = false

module _ {F : Type 0} ⦃js : Runtime F⦄ where
  -- The schema has no issue with the body, and its tool is registered.
  unfoldable pub accepts : (String → Option ToolDefinition) → Json F → SafeParse F → Bool
  unfolding is_registered
  accepts get_tool raw (success v) = is_registered get_tool (read v "tool")
  accepts get_tool raw (refused issues) =
      is_empty issues && is_registered get_tool (read raw "tool")

>>=-some {ℓ κ} :
    {A : Type ℓ} {B : Type κ} (m : Option A) (f : A → Option B) (b : B)
    → (m >>= f) ≡ some b
    → (a : A) × (m ≡ some a) × (f a ≡ some b)
>>=-some none f b h = absurd (ground (arith, h))
>>=-some (some a) f b h = (a, refl, h)

is_empty-found_tool :
    (name : String) (o : Option ToolDefinition) → is_empty (found_tool name o).0 ≡ is_found o
unfolding is_found found_tool
is_empty-found_tool name none = refl
is_empty-found_tool name (some tool) = refl

is_empty-resolve_tool :
    (get_tool : String → Option ToolDefinition) (f : Field) (resolved : Resolved)
    → resolve_tool get_tool f ≡ some resolved
    → is_empty resolved.0 ≡ is_registered get_tool f
unfolding is_registered resolve_tool found_tool
is_empty-resolve_tool get_tool missing resolved h =
    let same : ("Field 'tool' is missing or invalid." ∷ [], fallback_tool "unknown") ≡ resolved =
      ground (arith, h) in
    ap (λ p. is_empty p.0) (sym same)
is_empty-resolve_tool get_tool (text name) resolved h =
    let same : found_tool name (get_tool name) ≡ resolved = ground (arith, h) in
    ap (λ p. is_empty p.0) (sym same) ∙ is_empty-found_tool name (get_tool name)
is_empty-resolve_tool get_tool other resolved h = absurd (ground (arith, h))

is_empty-details : (issues : List Issue) → is_empty (map error_detail issues) ≡ is_empty issues
is_empty-details [] = refl
is_empty-details (i ∷ is) = refl

module _ {F : Type 0} ⦃js : Runtime F⦄ (get_tool : String → Option ToolDefinition) where
  parse_raw-errors :
      (moment : Moment) (errors : List String) (raw : Json F) (r : ParsedRequest F)
      → parse_raw get_tool moment (errors, raw) ≡ some r
      → is_empty r.parse_errors ≡ (is_empty errors && is_registered get_tool (read raw "tool"))
  unfolding parse_raw
  parse_raw-errors moment errors raw r h =
      let (resolved, known, rest) =
        >>=-some (resolve_tool get_tool (read raw "tool"))
          (λ p. read_fields moment raw >>= λ f. some (assemble moment raw errors p f)) r h in
      let (f, _, made) =
        >>=-some (read_fields moment raw) (λ f. some (assemble moment raw errors resolved f)) r
          rest in
      let same : assemble moment raw errors resolved f ≡ r = ground (arith, made) in
      ap (λ q. is_empty q.parse_errors) (sym same)
      ∙ is_empty-append errors resolved.0
      ∙ ap (λ b. is_empty errors && b)
          (is_empty-resolve_tool get_tool (read raw "tool") resolved known)

  parsed-some :
      (o : Option (ParsedRequest F)) (r : ParsedRequest F) → parse_of o ≡ parsed r → o ≡ some r
  parsed-some none r h = absurd (ground (arith, h))
  parsed-some (some q) r h = ground (arith, h)

module _ {F : Type 0} ⦃js : Runtime F⦄ (safe_parse : Json F → SafeParse F)
    (get_tool : String → Option ToolDefinition) where
  validated-errors :
      (raw : Json F) (result : SafeParse F)
      → let (errors, v) = validated_raw raw result in
        (is_empty errors && is_registered get_tool (read v "tool")) ≡ accepts get_tool raw result
  unfolding accepts
  validated-errors raw (success v) = refl
  validated-errors raw (refused issues) =
      ap (λ b. b && is_registered get_tool (read raw "tool")) (is_empty-details issues)

  -- A body that is read has no parse errors exactly when the schema has no issue with it and its tool is
  -- registered.
  pub parse-errors :
      (moment : Moment) (raw : Json F) (r : ParsedRequest F)
      → parse safe_parse get_tool moment raw ≡ parsed r
      → is_empty r.parse_errors ≡ accepts get_tool raw (safe_parse raw)
  unfolding parse
  parse-errors moment raw r h =
      let v = validated_raw raw (safe_parse raw) in
      parse_raw-errors get_tool moment v.0 v.1 r
        (parsed-some get_tool (parse_raw get_tool moment v) r h)
      ∙ validated-errors raw (safe_parse raw)

classified-errors :
    {F : Type 0} ⦃js : Runtime F⦄ (classify : String → String) (r : ParsedRequest F)
    → (classified classify r).parse_errors ≡ r.parse_errors
unfolding classified
classified-errors classify r = ground arith

module _ {F : Type 0} ⦃js : Runtime F⦄ (safe_parse : Json F → SafeParse F)
    (get_tool : String → Option ToolDefinition) (classify : String → String)
    (execute : ParsedRequest F → Json F) (ticket_id : String) where
  -- In another mode than OBSERVE, the job of a body that the schema refuses, or whose tool is not
  -- registered, changes neither the tickets nor the log of executions, provided that no rule has the name
  -- of the parser's check.
  pub refused-process_job :
      (validators : Validators F) (policy : Policy F) (mode : String) (moment : Moment)
      (raw : Json F) (r : ParsedRequest F) (desk : Desk F)
      → parse safe_parse get_tool moment raw ≡ parsed r
      → accepts get_tool raw (safe_parse raw) ≡ false
      → (mode == "OBSERVE") ≡ false
      → rule_of policy.rules (parse_check r.parse_errors) ≡ none
      → desk_of (process_job execute ticket_id validators policy mode (classified classify r) desk)
        ≡ desk
  unfolding process_job observe dispatch
  refused-process_job validators policy mode moment raw r desk h refuse enforced unnamed =
      let request = classified classify r in
      let same = classified-errors classify r in
      let broken : is_empty request.parse_errors ≡ false =
        ap is_empty same ∙ parse-errors safe_parse get_tool moment raw r h ∙ refuse in
      let blocked =
        unparsed-block validators policy request (validate validators request).redacted_request
          broken (ap (λ e. rule_of policy.rules (parse_check e)) same ∙ unnamed) in
      ground (arith, enforced, blocked.0)
