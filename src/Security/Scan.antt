-- ===== src/Security/Scan.antt =====
-- The scan of the parameters in apps/api/src/validation/security/security.validator.ts: the content boundaries and `scanParams`. The regular
-- expressions of the injection patterns are run by the engine: `test pattern text` is a parameter.
use Prim.Native.Char.{code}
use mini_sentinel.Prelude.{
  ℕ, suc, String, Bool, true, List, [], ◌∷◌, ◌++◌, ◌&&◌, ◌||◌, if◌then◌else◌, leb, ltb, eqb, length,
  ◌^^◌,
}
use mini_sentinel.Values.Json.{
  Json, null, bool, num, str, arr, obj, Items, nil, cons, items, Fields, end, field,
}
use mini_sentinel.Values.Runtime.{Runtime}
use mini_sentinel.Types.{ValidationFailure, Level, high}

abbrev pub injection_patterns : List String
injection_patterns =
    "ignore\\s+previous\\s+instructions" ∷ "system:\\s*you\\s+are\\s+now\\s+in\\s+developer\\s+mode"
    ∷ "human:\\s*please\\s+override\\s+safety\\s+protocols"
    ∷ "disregard\\s+all\\s+previous\\s+instructions" ∷ "bypass\\s+safety\\s+filters"
    ∷ "assistant:\\s*ignore\\s+safety" ∷ []

-- `contentBoundaries`
abbrev pub max_length : ℕ
max_length = 10000

abbrev pub max_nesting : ℕ
max_nesting = 5

abbrev pub max_array_size : ℕ
max_array_size = 100

allowed_char : ℕ → Bool
allowed_char c = leb 0x20 c && leb c 0x7e || (eqb c 10 || (eqb c 13 || eqb c 9))

-- `allowedChars.test(s)`
unfoldable pub allowed_chars : String → Bool
unfolding allowed_char
allowed_chars String.[] = true
allowed_chars (String.◌∷◌ c s) = allowed_char (code c) && allowed_chars s

-- What `scanParams` pushes: failures, and issues.
pub record Found : Type 0 where
  pub failures : List ValidationFailure
  pub issues : List String

abbrev pub nothing : Found
nothing = record { failures = []; issues = [] }

abbrev pub ◌then_found◌ : Found → Found → Found
◌then_found◌ a b = record { failures = a.failures ++ b.failures; issues = a.issues ++ b.issues }

abbrev pub failure : String → String → Level → ValidationFailure
failure rule reason severity = record { rule = rule; reason = reason; severity = severity }

module _ (test : String → String → Bool) where
  unfoldable pub pattern_issues : List String → String → List String
  pattern_issues [] s = []
  pattern_issues (p ∷ ps) s =
      let rest = pattern_issues ps s in
      if test p s
      then ("Prompt injection pattern '" ^^ p ^^ "' matched in value: \"" ^^ s ^^ "\"") ∷ rest
      else rest

  unfoldable pub char_issues : String → List String
  char_issues s =
      if allowed_chars s
      then []
      else "Non-printable or control characters found in string parameters." ∷ []

  -- the issues of a text value
  unfoldable pub text_issues : String → List String
  text_issues s = pattern_issues injection_patterns s ++ char_issues s

unfoldable pub key_issues : String → List String
key_issues key =
    if allowed_chars key
    then []
    else ("Non-printable characters found in parameter key: \"" ^^ key ^^ "\"") ∷ []

abbrev too_deep : (ℕ → String) → Found
too_deep show = record {
  failures =
      failure "EXCESSIVE_NESTING"
        ("Parameters nesting depth exceeds maximum limit of " ^^ show max_nesting) high
      ∷ [];
  issues = [];
}

abbrev pub size_failures : (ℕ → String) → ℕ → List ValidationFailure
size_failures show n =
    if ltb max_array_size n
    then failure "EXCESSIVE_ARRAY_SIZE"
        ("Array size " ^^ show n ^^ " exceeds limit of " ^^ show max_array_size) high
      ∷ []
    else []

module _ {F : Type 0} ⦃js : Runtime F⦄ (test : String → String → Bool) where
  unfoldable mutual
    unfolding text_issues key_issues

    -- `scanParams(obj, currentDepth)`
    pub scan_params : ℕ → Json F → Found
    scan_params depth null =
        if ltb max_nesting depth then too_deep (λ n. js.show (js.lit n 0)) else nothing
    scan_params depth (bool b) =
        if ltb max_nesting depth then too_deep (λ n. js.show (js.lit n 0)) else nothing
    scan_params depth (num x) =
        if ltb max_nesting depth then too_deep (λ n. js.show (js.lit n 0)) else nothing
    scan_params depth (str s) =
        if ltb max_nesting depth
        then too_deep (λ n. js.show (js.lit n 0))
        else record { failures = []; issues = text_issues test s }
    scan_params depth (arr vs) =
        let below = scan_items (suc depth) vs in
        if ltb max_nesting depth then too_deep (λ n. js.show (js.lit n 0)) else record below {
          failures =
              size_failures (λ n. js.show (js.lit n 0)) (length (items vs)) ++ below.failures;
        }
    scan_params depth (obj fs) =
        let below = scan_fields (suc depth) fs in
        if ltb max_nesting depth then too_deep (λ n. js.show (js.lit n 0)) else below

    pub scan_items : ℕ → Items F → Found
    scan_items depth nil = nothing
    scan_items depth (cons v vs) = ◌then_found◌ (scan_params depth v) (scan_items depth vs)

    pub scan_fields : ℕ → Fields F → Found
    scan_fields depth end = nothing
    scan_fields depth (field k v fs) =
        let here = scan_params depth v in
        ◌then_found◌ (record here { issues = key_issues k ++ here.issues }) (scan_fields depth fs)
