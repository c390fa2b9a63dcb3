-- ===== src/Tests/TrailExamples.antt =====
-- Examples for the trail of apps/api/src/audit/audit.service.ts.
use mini_sentinel.Prelude.{
  ℕ, String, true, false, none, some, [], ◌∷◌, ◌≡◌, ◌≢◌, ◌↔◌, ◌⊎◌, refl, arith, eq_iff, length,
  if◌then◌else◌, ◌==◌, Bool-cases, inl, inr,
}
use mini_sentinel.Values.Json.{Json, null, bool, str, obj, end, field, get}
use mini_sentinel.Values.Runtime.{stringify}
use mini_sentinel.Audit.Row.{Row, hash_input, content_str, row_hash}
use mini_sentinel.Audit.Store.{order_by_index}
use mini_sentinel.Audit.Service.{
  done, tampered, Entry, UpdateData, amend, record_entry, update_record_and_recalculate, verified,
  verify_chain,
}
use mini_sentinel.Audit.Verify.{Chain, verify_chain_iff}
use mini_sentinel.Audit.Append.{record_entry-verified}
use mini_sentinel.Audit.Heal.Update.{update-verified}
use mini_sentinel.Audit.Tamper.{Collide, tampered_row}
use mini_sentinel.Audit.Altered.{raw_request}
use mini_sentinel.Tests.{engine}

abbrev pub mark : String → String
mark s = if s == "" then "#" else s

-- Texts that the test tells apart differ, also as values that are there.
pub text-ne : (s t : String) → (s == t) ≡ false → s ≢ t
text-ne s t h e = ground (arith, eq_iff s t)

some-ne : (s t : String) → (s == t) ≡ false → some s ≢ some t
some-ne s t h e = ground (arith, eq_iff s t)

pub mark-ne : (s : String) → mark s ≢ ""
mark-ne s e = elim (Bool-cases (s == "")) [
  | inl empty ↦ text-ne "#" "" refl (rw empty at e)
  | inr full ↦ text-ne s "" full (rw full at e)
]

abbrev plain : String → String
plain s = s

abbrev dated : String → Json ℕ
dated d = obj (field "timestamp" (str d) end)

abbrev entry : String → String → Entry ℕ
entry id request_id = record {
  id = id;
  temp_hash = "t";
  now = "d9";
  raw_request = dated "d0";
  request_id = request_id;
  session_id = "s";
  agent_id = "a";
  parsed_request = dated "d1";
  validation_result = null;
  decision_record = null;
  execution_result = none;
}

-- The first row of a trail, before its hash is set.
abbrev blank : Row ℕ
blank = record {
  id = "i0";
  request_id = "r0";
  session_id = "s";
  agent_id = "a";
  received_at = "d0";
  completed_at = "d9";
  raw_request = dated "d0";
  parsed_request = dated "d1";
  validation_result = null;
  decision_record = null;
  execution_result = null;
  hash = "";
  previous_hash = none;
  next_hash = none;
  chain_index = 0;
}

abbrev content : Row ℕ → String
content r = stringify (hash_input r "d1")

abbrev hashed : (String → String) → Row ℕ → Row ℕ
hashed sha256 r = record r { hash = row_hash sha256 r.previous_hash (content r) r }

abbrev pub first_row : Row ℕ
first_row = hashed mark blank

-- A second row; its hash is out of date.
abbrev pub second_row : Row ℕ
second_row = record blank { id = "i1"; request_id = "r1"; hash = "old"; chain_index = 1 }

pub first_row-Chain : Chain mark 0 none (first_row ∷ [])
unfolding content_str hash_input row_hash get
first_row-Chain = (
  record { index = refl; previous = refl; content = content blank; readable = refl; digest = refl },
  tt,
)

verify_chain_iff_example :
    (verify_chain mark (first_row ∷ []) ≡ verified)
    ↔ Chain mark 0 none (order_by_index (first_row ∷ []))
verify_chain_iff_example = verify_chain_iff mark (first_row ∷ [])

record_entry-verified_example :
    (verify_chain mark (record_entry mark (entry "i1" "r1") (first_row ∷ [])).0 ≡ verified)
    × (length (record_entry mark (entry "i1" "r1") (first_row ∷ [])).0 ≡ 2)
    × ((r : Row ℕ) × ((record_entry mark (entry "i1" "r1") (first_row ∷ [])).1 ≡ done r)
        × (r.request_id ≡ "r1")
        × (r.chain_index ≡ 1))
unfolding get
record_entry-verified_example =
    record_entry-verified mark (entry "i1" "r1") (first_row ∷ []) "d0" "d1" first_row-Chain refl
      (text-ne "i0" "i1" refl, tt) refl refl

abbrev completion : UpdateData ℕ
completion = record {
  now = "d10";
  decision_record = str "approved";
  validation_result = none;
  execution_result = some (bool true);
  parsed_request = none;
}

update-verified_example :
    (verify_chain mark
        (update_record_and_recalculate mark "r1" completion (first_row ∷ (second_row ∷ []))).0
      ≡ verified)
    × ((r : Row ℕ) × ((update_record_and_recalculate mark "r1" completion
            (first_row ∷ (second_row ∷ []))).1
          ≡ done r))
unfolding content_str hash_input get amend
update-verified_example =
    update-verified mark mark-ne completion (first_row ∷ []) [] second_row refl first_row-Chain
      (refl, (refl, tt)) ((text-ne "i1" "i0" refl, tt), (tt, tt))
      ((stringify (hash_input (amend completion second_row) "d1"), refl), tt)

abbrev forged : Row ℕ
forged = record (hashed plain blank) { raw_request = dated "d7" }

hashed-Chain : Chain plain 0 none (hashed plain blank ∷ [])
unfolding content_str hash_input row_hash get
hashed-Chain = (
  record { index = refl; previous = refl; content = content blank; readable = refl; digest = refl },
  tt,
)

printed-ne : stringify (dated "d7") ≢ stringify (dated "d0")
unfolding stringify
printed-ne = text-ne (stringify (dated "d7")) (stringify (dated "d0")) refl

tampered_row_example :
    ((reason : String) × (verify_chain plain (forged ∷ []) ≡ tampered 0 reason))
    ⊎ Collide plain (hashed plain blank) forged
tampered_row_example =
    tampered_row plain [] [] [] (hashed plain blank) forged hashed-Chain tt
      (raw_request (dated "d7") printed-ne)
