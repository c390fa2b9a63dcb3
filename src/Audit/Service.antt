-- ===== src/Audit/Service.antt =====
-- The operations of `AuditService` (apps/api/src/audit/audit.service.ts), as functions from the
-- table to the new table and the outcome. An exception keeps what was written before it.
use mini_sentinel.Prelude.{
  ℕ, zero, suc, ◌+◌, String, Bool, true, false, not, Option, none, some, List, [], ◌∷◌, ◌++◌, any,
  eqb, if◌then◌else◌, ◌==◌, ◌^^◌,
}
use mini_sentinel.Values.Json.{Json, null}
use mini_sentinel.Values.Runtime.{Runtime}
use mini_sentinel.Audit.Row.{Row, own, content_str, row_hash}
use mini_sentinel.Audit.Store.{
  find_request, find_id, find_hash, find_index, find_latest, order_by_index, from_index, update,
}

pub data Outcome {ℓ} (A : Type ℓ) : Type ℓ where
  done : A → Outcome A
  not_found : String → Outcome A
  internal_error : String → Outcome A
  thrown : Outcome A

-- `unreadable`: the date of a row throws.
pub data Verification : Type 0 where
  verified unreadable : Verification
  tampered : ℕ → String → Verification

-- What `record` is called with, the dates printed; `id` and `temp_hash` are the values that the
-- database and the random source make up.
pub record Entry (F : Type 0) : Type 0 where
  pub id : String
  pub temp_hash : String
  pub now : String
  pub raw_request : Json F
  pub request_id : String
  pub session_id : String
  pub agent_id : String
  pub parsed_request : Json F
  pub validation_result : Json F
  pub decision_record : Json F
  pub execution_result : Option (Json F)

-- `updateData` of `updateRecordAndRecalculate`, and the date of completion.
pub record UpdateData (F : Type 0) : Type 0 where
  pub now : String
  pub decision_record : Json F
  pub validation_result : Option (Json F)
  pub execution_result : Option (Json F)
  pub parsed_request : Option (Json F)

unfoldable pub same_hash : Option String → Option String → Bool
same_hash none none = true
same_hash (some a) (some b) = a == b
same_hash _ _ = false

abbrev non_empty : String → Option String
non_empty h = if h == "" then none else some h

module _ {F : Type 0} where
  abbrev pub json_or : Option (Json F) → Json F → Json F
  json_or none d = d
  json_or (some v) d = v

  abbrev pub next_index : Option (Row F) → ℕ
  next_index none = 0
  next_index (some latest) = latest.chain_index + 1

  abbrev pub hash_of : Option (Row F) → Option String
  hash_of none = none
  hash_of (some latest) = some latest.hash

  unfoldable pub new_row : Entry F → String → Option (Row F) → Row F
  new_row e received latest = record {
    id = e.id;
    request_id = e.request_id;
    session_id = e.session_id;
    agent_id = e.agent_id;
    received_at = received;
    completed_at = e.now;
    raw_request = e.raw_request;
    parsed_request = e.parsed_request;
    validation_result = e.validation_result;
    decision_record = e.decision_record;
    execution_result = json_or e.execution_result null;
    hash = e.temp_hash;
    previous_hash = hash_of latest;
    next_hash = none;
    chain_index = next_index latest;
  }

  abbrev pub set_hash : String → Row F → Row F
  set_hash h r = record r { hash = h }

  abbrev pub set_next : String → Row F → Row F
  set_next h r = record r { next_hash = some h }

  abbrev pub set_hashes : Option String → String → Row F → Row F
  set_hashes p h r = record r { previous_hash = p; hash = h }

  -- the last step of `record`, the link of the previous row
  abbrev pub link_latest : Option (Row F) → String → List (Row F) → List (Row F)
  link_latest none h t = t
  link_latest (some latest) h t = update latest.id (set_next h) t

  -- `dataToUpdate`, put on the row
  unfoldable pub amend : UpdateData F → Row F → Row F
  amend u r = record r {
    decision_record = u.decision_record;
    execution_result = json_or u.execution_result null;
    completed_at = u.now;
    validation_result = json_or u.validation_result r.validation_result;
    parsed_request = json_or u.parsed_request r.parsed_request;
  }

  -- `(await findFirst({ where: { chainIndex: i - 1 } }))?.hash || null`
  abbrev hash_or_null : Option (Row F) → Option String
  hash_or_null none = none
  hash_or_null (some r) = non_empty r.hash

  abbrev hash_before_at : ℕ → List (Row F) → Option String
  hash_before_at zero t = none
  hash_before_at (suc i) t = hash_or_null (find_index i t)

  unfoldable pub hash_before : ℕ → List (Row F) → Option String
  hash_before i t = hash_before_at i t

  abbrev link_found : Option (Row F) → String → List (Row F) → List (Row F)
  link_found none h t = t
  link_found (some prev) h t = update prev.id (set_next h) t

  -- `if (lastHash) { … }`, where the row that holds the last hash gets its `nextHash`
  abbrev pub link_previous : Option String → String → List (Row F) → List (Row F)
  link_previous none h t = t
  link_previous (some last) h t = if last == "" then t else link_found (find_hash last t) h t

abbrev show_hash : Option String → String
show_hash none = "null"
show_hash (some h) = h

module _ {F : Type 0} where
  abbrev pub final_row : String → List (Row F) × Bool → List (Row F) × Outcome (Row F)
  final_row id (t, false) = (t, thrown)
  final_row id (t, true) = (t, elim (find_id id t) [ none ↦ thrown | some r ↦ done r ])

-- the third check of `verifyChain`, of the stored hash against the computed one
abbrev check_hash : ℕ → String → String → Option Verification
check_hash i computed stored =
    if stored == computed
    then none
    else some (
        tampered i (
          "Integrity failure: Computed hash is '" ^^ computed ^^ "', but record contains '"
          ^^ stored ^^ "'"))

module _ {F : Type 0} ⦃js : Runtime F⦄ (sha256 : String → String) where
  -- The message of the database's error, which the source adds to the text, is left out.
  -- from the reload of the created row on
  finish_record :
      Option (Row F) → Row F → Option String → List (Row F) → List (Row F) × Outcome (Row F)
  finish_record latest current none t = (t, internal_error "Failed to append to audit trail")
  finish_record latest current (some content) t =
      let h = row_hash sha256 current.previous_hash content current in
      (link_latest latest h (update current.id (set_hash h) t), done (set_hash h current))

  create_record : Entry F → Option String → List (Row F) → List (Row F) × Outcome (Row F)
  unfolding finish_record
  create_record e none t = (t, internal_error "Failed to append to audit trail")
  create_record e (some received) t =
      if any (λ r. r.request_id == e.request_id) t
      then (t, internal_error "Failed to append to audit trail")
      else (let latest = find_latest t in
          let row = new_row e received latest in
          finish_record latest row (content_str row) (t ++ row ∷ []))

  -- `record(rawRequest, parsedRequest, validationResult, decisionRecord, executionResult)`; a second
  -- record of a request is refused by the unique index on `requestId`.
  unfoldable pub record_entry : Entry F → List (Row F) → List (Row F) × Outcome (Row F)
  unfolding create_record
  record_entry e t = create_record e (js.iso_date (own e.raw_request "timestamp")) t

  -- the loop over `recordsToRecalculate`; `false` when the date of a row throws
  unfoldable pub relink : Option String → List (Row F) → List (Row F) → List (Row F) × Bool
  relink last [] t = (t, true)
  relink last (rec ∷ recs) t = elim (content_str rec) [
    | none ↦ (t, false)
    | some content ↦
        let h = row_hash sha256 last content rec in
        relink (some h) recs (link_previous last h (update rec.id (set_hashes last h) t))
  ]

  update_found : Row F → UpdateData F → List (Row F) → List (Row F) × Outcome (Row F)
  unfolding relink
  update_found rec u t =
      let t' = update rec.id (amend u) t in
      final_row rec.id (
        relink (hash_before rec.chain_index t') (order_by_index (from_index rec.chain_index t')) t')

  -- `updateRecordAndRecalculate(requestId, updateData)`
  unfoldable pub update_record_and_recalculate :
      String → UpdateData F → List (Row F) → List (Row F) × Outcome (Row F)
  unfolding update_found
  update_record_and_recalculate request_id u t = elim (find_request request_id t) [
    | none ↦ (t, not_found ("Audit record with requestId " ^^ request_id ^^ " not found"))
    | some rec ↦ update_found rec u t
  ]

  abbrev check_content : ℕ → Row F → Option String → Option Verification
  check_content i r none = some unreadable
  check_content i r (some content) = check_hash i (row_hash sha256 r.previous_hash content r) r.hash

  -- the checks on row `i` of `verifyChain`, in their order; `none` when all hold
  unfoldable pub check_row : ℕ → Option String → Row F → Option Verification
  unfolding same_hash
  check_row i expected r =
      if not (eqb r.chain_index i)
      then some (
          tampered i (
            "Index mismatch: Expected index "
            ^^ js.show (js.lit i 0)
            ^^ ", found "
            ^^ js.show (js.lit r.chain_index 0)))
      else if not (same_hash r.previous_hash expected)
      then some (
          tampered i (
            "Link mismatch: Expected previousHash to be '"
            ^^ show_hash expected
            ^^ "', found '"
            ^^ show_hash r.previous_hash
            ^^ "'"))
      else check_content i r (content_str r)

  -- the loop of `verifyChain`
  unfoldable pub verify_from : ℕ → Option String → List (Row F) → Verification
  verify_from i expected [] = verified
  verify_from i expected (r ∷ rs) = elim (check_row i expected r) [
    | none ↦ verify_from (suc i) (some r.hash) rs
    | some v ↦ v
  ]

  -- `verifyChain()`
  unfoldable pub verify_chain : List (Row F) → Verification
  unfolding verify_from check_row
  verify_chain t = verify_from 0 none (order_by_index t)
