-- ===== src/Audit/Row.antt =====
-- A row of the audit table, its hashed content, and its hash: `hashInput` and `calculateSHA256` of
-- apps/api/src/audit/audit.service.ts. The digest `sha256` is a parameter. The columns that are
-- neither hashed nor read by the service (the host and the node) are left out.
use mini_sentinel.Prelude.{ℕ, String, Option, none, some, [], ◌∷◌, text_or, ◌^^◌, if◌then◌else◌}
use mini_sentinel.Values.Json.{Json, null, str, obj, get, object}
use mini_sentinel.Values.Runtime.{Runtime, stringify}
use mini_sentinel.Values.Coerce.{truthy}

pub record Row (F : Type 0) : Type 0 where
  pub id : String
  pub request_id : String
  pub session_id : String
  pub agent_id : String
  pub received_at : String
  pub completed_at : String
  pub raw_request : Json F
  pub parsed_request : Json F
  pub validation_result : Json F
  pub decision_record : Json F
  pub execution_result : Json F
  pub hash : String
  pub previous_hash : Option String
  pub next_hash : Option String
  pub chain_index : ℕ

module _ {F : Type 0} where
  -- `v.key` of a stored request, which is an object
  abbrev pub own : Json F → String → Option (Json F)
  own (obj fs) key = get key fs
  own v key = none

module _ {F : Type 0} ⦃js : Runtime F⦄ where
  -- `v || null`
  abbrev pub or_null : Json F → Json F
  or_null v = if truthy v then v else null

  -- `hashInput`, given the printed timestamp of the parsed request
  unfoldable pub hash_input : Row F → String → Json F
  unfolding object
  hash_input r timestamp =
      let parsed = own r.parsed_request in
      obj (
        object (
          ("requestId", some (str r.request_id))
          ∷ ("sessionId", some (str r.session_id))
          ∷ ("agentId", some (str r.agent_id))
          ∷ ("receivedAt", some (str r.received_at))
          ∷ ("rawRequest", some r.raw_request)
          ∷ (
            "parsedRequest",
            some (
                obj (
                  object (
                    ("id", parsed "id")
                    ∷ ("agentId", parsed "agentId")
                    ∷ ("sessionId", parsed "sessionId")
                    ∷ ("timestamp", some (str timestamp))
                    ∷ ("tool", parsed "tool")
                    ∷ ("action", parsed "action")
                    ∷ ("parameters", parsed "parameters")
                    ∷ ("metadata", parsed "metadata")
                    ∷ []))),
          )
          ∷ ("validationResult", some r.validation_result)
          ∷ ("decisionRecord", some r.decision_record)
          ∷ ("executionResult", some (or_null r.execution_result))
          ∷ []))

  abbrev content_at : Row F → Option String → Option String
  content_at r none = none
  content_at r (some timestamp) = some (stringify (hash_input r timestamp))

  -- `contentStr`, or `none` where the timestamp is no date and `toISOString` throws
  unfoldable pub content_str : Row F → Option String
  content_str r = content_at r (js.iso_date (own r.parsed_request "timestamp"))

abbrev genesis : Option String → String
genesis previous = text_or previous "GENESIS_BLOCK"

module _ (sha256 : String → String) where
  -- `calculateSHA256(previousHash, contentStr, index)`, the index printed
  unfoldable pub calculate_sha256 : Option String → String → String → String
  calculate_sha256 previous content index = sha256 (genesis previous ^^ (content ^^ index))

  -- the same for the index of a row
  unfoldable pub row_hash : {F : Type 0} ⦃js : Runtime F⦄ → Option String → String → Row F → String
  unfolding calculate_sha256
  row_hash ⦃js⦄ previous content r =
      calculate_sha256 previous content (js.show (js.lit r.chain_index 0))
