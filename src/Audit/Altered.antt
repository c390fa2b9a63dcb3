-- ===== src/Audit/Altered.antt =====
-- Rows of apps/api/src/audit/audit.service.ts of which one hashed column was changed in the database, and
-- the text that `hashInput` gives for them.
use mini_sentinel.Prelude.{
  String, false, Option, some, List, [], ◌∷◌, ◌++◌, ◌≡◌, ◌≢◌, Option-cases, inl, inr, arith, refl,
  sym, ◌∙◌, ◌==◌,
}
use mini_sentinel.Values.Json.{Json, obj, str, object}
use mini_sentinel.Values.Runtime.{Runtime, stringify}
use mini_sentinel.Audit.Row.{Row, own, or_null, hash_input, content_str}
use mini_sentinel.Values.Printed.{column-text}

module _ {F : Type 0} ⦃js : Runtime F⦄ where
  -- The second row is the first with another value in one hashed column: one that is printed otherwise by
  -- `JSON.stringify`. Of the parsed request it is the parameters that differ.
  pub data IsAltered (r : Row F) : Row F → Type 0 where
    request_id :
        (s : String)
        → js.quote s ≢ js.quote r.request_id
        → IsAltered r (record r { request_id = s })
    session_id :
        (s : String)
        → js.quote s ≢ js.quote r.session_id
        → IsAltered r (record r { session_id = s })
    agent_id :
        (s : String) → js.quote s ≢ js.quote r.agent_id → IsAltered r (record r { agent_id = s })
    received_at :
        (s : String)
        → js.quote s ≢ js.quote r.received_at
        → IsAltered r (record r { received_at = s })
    raw_request :
        (v : Json F)
        → stringify v ≢ stringify r.raw_request
        → IsAltered r (record r { raw_request = v })
    parameters :
        (p v w : Json F)
        → own r.parsed_request "parameters" ≡ some w
        → own p "parameters" ≡ some v
        → ((key : String) → (key == "parameters") ≡ false → own p key ≡ own r.parsed_request key)
        → stringify v ≢ stringify w
        → IsAltered r (record r { parsed_request = p })
    validation_result :
        (v : Json F)
        → stringify v ≢ stringify r.validation_result
        → IsAltered r (record r { validation_result = v })
    decision_record :
        (v : Json F)
        → stringify v ≢ stringify r.decision_record
        → IsAltered r (record r { decision_record = v })
    execution_result :
        (v : Json F)
        → stringify (or_null v) ≢ stringify (or_null r.execution_result)
        → IsAltered r (record r { execution_result = v })

module _ {F : Type 0} (r : Row F) where
  -- The hashed properties of a row, up to those with the same texts.
  abbrev labels : List (String × Option (Json F))
  labels =
      ("requestId", some (str r.request_id))
      ∷ ("sessionId", some (str r.session_id))
      ∷ ("agentId", some (str r.agent_id))
      ∷ ("receivedAt", some (str r.received_at))
      ∷ []

module _ {F : Type 0} ⦃js : Runtime F⦄ (d : String) where
  abbrev parsed_json : Json F → Json F
  parsed_json request = obj (
      object (
        ("id", own request "id")
        ∷ ("agentId", own request "agentId")
        ∷ ("sessionId", own request "sessionId")
        ∷ ("timestamp", some (str d))
        ∷ ("tool", own request "tool")
        ∷ ("action", own request "action")
        ∷ ("parameters", own request "parameters")
        ∷ ("metadata", own request "metadata")
        ∷ []))

  abbrev results : Row F → List (String × Option (Json F))
  results r =
      ("validationResult", some r.validation_result)
      ∷ ("decisionRecord", some r.decision_record)
      ∷ ("executionResult", some (or_null r.execution_result))
      ∷ []

  abbrev requests : Row F → List (String × Option (Json F))
  requests r =
      ("rawRequest", some r.raw_request)
      ∷ ("parsedRequest", some (parsed_json r.parsed_request))
      ∷ results r

  abbrev before_results : Row F → List (String × Option (Json F))
  before_results r =
      ("rawRequest", some r.raw_request)
      ∷ ("parsedRequest", some (parsed_json r.parsed_request))
      ∷ []

  parameters-text :
      (p q v w : Json F)
      → own q "parameters" ≡ some w
      → own p "parameters" ≡ some v
      → ((key : String) → (key == "parameters") ≡ false → own p key ≡ own q key)
      → stringify (parsed_json p) ≡ stringify (parsed_json q)
      → stringify v ≡ stringify w
  parameters-text p q v w old new same e =
      column-text
        (("id", own q "id")
          ∷ ("agentId", own q "agentId")
          ∷ ("sessionId", own q "sessionId")
          ∷ ("timestamp", some (str d))
          ∷ ("tool", own q "tool")
          ∷ ("action", own q "action")
          ∷ [])
        "parameters" v w (("metadata", own q "metadata") ∷ [])
        (rw
          (
            same "id" refl,
            same "agentId" refl,
            same "sessionId" refl,
            same "tool" refl,
            same "action" refl,
            same "metadata" refl,
            new,
            old,
          )
          at e)

  -- The hashed text of an altered row is another one.
  pub hash_input-ne :
      (r r' : Row F) → IsAltered r r' → stringify (hash_input r' d) ≢ stringify (hash_input r d)
  unfolding hash_input stringify
  hash_input-ne r _ (request_id s n) = λ e. n (
      column-text [] "requestId" (str s) (str r.request_id)
        (("sessionId", some (str r.session_id))
          ∷ ("agentId", some (str r.agent_id))
          ∷ ("receivedAt", some (str r.received_at))
          ∷ requests r)
        e)
  hash_input-ne r _ (session_id s n) = λ e. n (
      column-text (("requestId", some (str r.request_id)) ∷ []) "sessionId" (str s)
        (str r.session_id)
        (("agentId", some (str r.agent_id)) ∷ ("receivedAt", some (str r.received_at)) ∷ requests r)
        e)
  hash_input-ne r _ (agent_id s n) = λ e. n (
      column-text
        (("requestId", some (str r.request_id)) ∷ ("sessionId", some (str r.session_id)) ∷ [])
        "agentId" (str s) (str r.agent_id) (("receivedAt", some (str r.received_at)) ∷ requests r)
        e)
  hash_input-ne r _ (received_at s n) = λ e. n (
      column-text
        (("requestId", some (str r.request_id))
          ∷ ("sessionId", some (str r.session_id))
          ∷ ("agentId", some (str r.agent_id))
          ∷ [])
        "receivedAt" (str s) (str r.received_at) (requests r) e)
  hash_input-ne r _ (raw_request v n) = λ e. n (
      column-text (labels r) "rawRequest" v r.raw_request
        (("parsedRequest", some (parsed_json r.parsed_request)) ∷ results r) e)
  hash_input-ne r _ (parameters p v w old new same n) = λ e. n (
      parameters-text p r.parsed_request v w old new same (
        column-text (labels r ++ ("rawRequest", some r.raw_request) ∷ []) "parsedRequest"
          (parsed_json p) (parsed_json r.parsed_request) (results r) e))
  hash_input-ne r _ (validation_result v n) = λ e. n (
      column-text (labels r ++ before_results r) "validationResult" v r.validation_result
        (("decisionRecord", some r.decision_record)
          ∷ ("executionResult", some (or_null r.execution_result))
          ∷ [])
        e)
  hash_input-ne r _ (decision_record v n) = λ e. n (
      column-text
        (labels r ++ before_results r ++ ("validationResult", some r.validation_result) ∷ [])
        "decisionRecord" v r.decision_record
        (("executionResult", some (or_null r.execution_result)) ∷ []) e)
  hash_input-ne r _ (execution_result v n) = λ e. n (
      column-text
        (labels r
          ++ before_results r
          ++ ("validationResult", some r.validation_result)
            ∷ ("decisionRecord", some r.decision_record)
            ∷ [])
        "executionResult" (or_null v) (or_null r.execution_result) [] e)

module _ {F : Type 0} ⦃js : Runtime F⦄ where
  -- An altered row keeps its index, its hashes and its date.
  pub IsAltered-kept :
      (r r' : Row F)
      → IsAltered r r'
      → (r'.chain_index ≡ r.chain_index)
        × (r'.previous_hash ≡ r.previous_hash)
        × (r'.hash ≡ r.hash)
        × (own r'.parsed_request "timestamp" ≡ own r.parsed_request "timestamp")
  IsAltered-kept r _ (request_id s n) = (refl, refl, refl, refl)
  IsAltered-kept r _ (session_id s n) = (refl, refl, refl, refl)
  IsAltered-kept r _ (agent_id s n) = (refl, refl, refl, refl)
  IsAltered-kept r _ (received_at s n) = (refl, refl, refl, refl)
  IsAltered-kept r _ (raw_request v n) = (refl, refl, refl, refl)
  IsAltered-kept r _ (parameters p v w old new same n) = (refl, refl, refl, same "timestamp" refl)
  IsAltered-kept r _ (validation_result v n) = (refl, refl, refl, refl)
  IsAltered-kept r _ (decision_record v n) = (refl, refl, refl, refl)
  IsAltered-kept r _ (execution_result v n) = (refl, refl, refl, refl)

  -- Its content is there, and is another one.
  pub content_str-altered :
      (r r' : Row F) (content : String)
      → IsAltered r r'
      → content_str r ≡ some content
      → (content' : String) × (content_str r' ≡ some content') × (content ≢ content')
  unfolding content_str
  content_str-altered r r' content altered h =
      let (index, previous, hash, date) = IsAltered-kept r r' altered in
      elim (Option-cases (js.iso_date (own r.parsed_request "timestamp"))) [
        | inl none' ↦ absurd (ground (arith, none', h))
        | inr (d, dated) ↦
            let text : stringify (hash_input r d) ≡ content = ground (arith, dated, h) in
            (
              stringify (hash_input r' d),
              rw (date, dated) refl,
              λ e. hash_input-ne d r r' altered (sym (text ∙ e)),
            )
      ]
