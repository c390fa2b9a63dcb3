-- ===== src/Pii/Redactor.antt =====
-- `PiiRedactor` of apps/api/src/validation/pii/pii.redactor.ts. The answer of the redaction service, a
-- separate process, is a parameter; the walk over the parameters threads the count and the matches.
use Prim.Native.String.{count}
use mini_sentinel.Prelude.{
  ℕ, suc, ◌+◌, ◌-◌, String, Bool, Option, none, some, List, [], ◌∷◌, ◌++◌, map, any, filter, length,
  is_empty, leb, ◌&&◌, ◌||◌, if◌then◌else◌, ◌==◌, ◌^^◌, codes, to_lower, includes,
}
use mini_sentinel.Values.Json.{Json, str, arr, obj, Items, nil, cons, of_list, Fields, end, field}
use mini_sentinel.Values.Runtime.{Runtime}
use mini_sentinel.Values.Coerce.{split}
use mini_sentinel.Pii.Detector.{
  PiiType, ssn, credit_card, bank_account, address, email, phone, PiiMatch, take_chars, drop_chars,
  without_separators,
}
use mini_sentinel.Pipeline.Run.{Redaction}

-- `s.slice(-4)`
abbrev last_four : String → String
last_four s = drop_chars (count s - 4) s

email_mask : List String → String
unfolding take_chars
email_mask (name ∷ (domain ∷ rest)) =
    if name == "" || domain == "" then "[REDACTED EMAIL]" else take_chars 1 name ^^ "***@" ^^ domain
email_mask _ = "[REDACTED EMAIL]"

-- `getMask`
unfoldable pub get_mask : PiiType → String → String
unfolding drop_chars without_separators email_mask split
get_mask ssn value = "XXX-XX-" ^^ last_four value
get_mask credit_card value = "XXXX-XXXX-XXXX-" ^^ last_four (without_separators value)
get_mask bank_account value = "XXXXXX" ^^ last_four value
get_mask address value = "[REDACTED ADDRESS]"
get_mask email value = email_mask (split b'@' value)
get_mask phone value = "XXX-XXX-" ^^ last_four value

-- the loop of `redactString`
unfoldable pub mask_matches : List PiiMatch → String → String
unfolding get_mask take_chars drop_chars
mask_matches [] text = text
mask_matches (m ∷ ms) text =
    mask_matches ms (take_chars m.start text ^^ get_mask m.type m.value ^^ drop_chars m.end_ text)

abbrev sensitive_keys : List String
sensitive_keys =
    "ssn" ∷ "socialsecurity" ∷ "creditcard" ∷ "ccnumber" ∷ "pan" ∷ "bankaccount" ∷ "accountnumber"
    ∷ "routingnumber" ∷ "address" ∷ "street" ∷ "email" ∷ "phone" ∷ "phonenumber" ∷ "dateofbirth"
    ∷ "dob" ∷ []

-- `isSensitiveKey`
unfoldable pub is_sensitive_key : String → Bool
unfolding to_lower includes
is_sensitive_key key =
    let letters = filter (λ c. leb b'a' c && leb c b'z') (to_lower (codes key)) in
    any (λ k. includes letters (codes k)) sensitive_keys

abbrev lower_has : String → String → Bool
lower_has key word = includes (to_lower (codes key)) (codes word)

-- `inferPiiTypeFromKey`
unfoldable pub infer_pii_type_from_key : String → PiiType
infer_pii_type_from_key k =
    if lower_has k "ssn" || lower_has k "social"
    then ssn
    else if lower_has k "card" || (lower_has k "cc" || lower_has k "pan")
    then credit_card
    else if lower_has k "bank" || lower_has k "account"
    then bank_account
    else if lower_has k "address" || lower_has k "street"
    then address
    else if lower_has k "email"
    then email
    else phone

abbrev last_or : String → List String → String
last_or d [] = d
last_or d (s ∷ ss) = last_or s ss

-- `path.split(".").pop() || ""`
abbrev key_name : String → String
key_name path = last_or "" (split b'.' path)

abbrev pub child_path : String → String → String
child_path path key = if path == "" then key else path ^^ "." ^^ key

-- `{ path, type }`
pub record Located : Type 0 where
  pub path : String
  pub type : PiiType

-- A part of the parameters after the walk, with what it adds to the count and to the matches.
pub record Walked {ℓ} (A : Type ℓ) : Type ℓ where
  pub value : A
  pub count_ : ℕ
  pub found : List Located

abbrev type_text : PiiType → String
type_text ssn = "SSN"
type_text credit_card = "CREDIT_CARD"
type_text bank_account = "BANK_ACCOUNT"
type_text address = "ADDRESS"
type_text email = "EMAIL"
type_text phone = "PHONE"

module _ {F : Type 0} where
  located_json : Located → Json F
  located_json l = obj (field "path" (str l.path) (field "type" (str (type_text l.type)) end))

module _ {F : Type 0} ⦃js : Runtime F⦄ (detect : String → List PiiMatch) where
  -- the branch of `recurse` for a text
  unfoldable pub redact_text : String → String → Walked (Json F)
  unfolding mask_matches is_sensitive_key infer_pii_type_from_key get_mask
  redact_text path s =
      let matches = detect s in
      let key = key_name path in
      let type = infer_pii_type_from_key key in
      if is_empty matches
      then (if is_sensitive_key key
          then record {
            value = str (get_mask type s);
            count_ = 1;
            found = (record { path = path; type = type }) ∷ [];
          }
          else record { value = str s; count_ = 0; found = [] })
      else record {
        value = str (mask_matches matches s);
        count_ = length matches;
        found = map (λ m. record { path = path; type = m.type }) matches;
      }

  unfoldable mutual
    unfolding redact_text

    -- `recurse(obj, path)`
    pub redact_value : String → Json F → Walked (Json F)
    redact_value path (str s) = redact_text path s
    redact_value path (arr vs) =
        let w = redact_items path 0 vs in
        record { value = arr w.value; count_ = w.count_; found = w.found }
    redact_value path (obj fs) =
        let w = redact_fields path fs in
        record { value = obj w.value; count_ = w.count_; found = w.found }
    redact_value path v = record { value = v; count_ = 0; found = [] }

    pub redact_items : String → ℕ → Items F → Walked (Items F)
    redact_items path idx nil = record { value = nil; count_ = 0; found = [] }
    redact_items path idx (cons v vs) =
        let w = redact_value (path ^^ "[" ^^ js.show (js.lit idx 0) ^^ "]") v in
        let ws = redact_items path (suc idx) vs in
        record {
          value = cons w.value ws.value;
          count_ = w.count_ + ws.count_;
          found = w.found ++ ws.found;
        }

    pub redact_fields : String → Fields F → Walked (Fields F)
    redact_fields path end = record { value = end; count_ = 0; found = [] }
    redact_fields path (field key v fs) =
        let w = redact_value (child_path path key) v in
        let ws = redact_fields path fs in
        record {
          value = field key w.value ws.value;
          count_ = w.count_ + ws.count_;
          found = w.found ++ ws.found;
        }

  -- `redactParametersLocal(params)`
  unfoldable pub redact_parameters_local : Fields F → Redaction F
  unfolding redact_fields located_json
  redact_parameters_local params =
      let w = redact_fields "" params in
      record {
        redacted_params = w.value;
        redacted_count = w.count_;
        matches = arr (of_list (map located_json w.found));
      }

  -- `redactParametersAsync(params)`: the answer of the service, where it has one with parameters
  unfoldable pub redact_parameters_async :
      (Fields F → Option (Redaction F)) → Fields F → Redaction F
  redact_parameters_async service params = elim (service params) [
    | some answer ↦ answer
    | none ↦ redact_parameters_local params
  ]
