-- ===== src/Pii/Detector.antt =====
-- `PiiDetector` of apps/api/src/validation/pii/pii.detector.ts. The matches of a regular expression in
-- a text and the test for the words around an account number are the engine's: `exec` and `has_context`
-- are parameters. Positions count characters, as the source's do up to U+FFFF.
use Prim.Native.Char.{code}
use Prim.Native.String.{count}
use mini_sentinel.Prelude.{
  ℕ, zero, suc, ◌+◌, ◌-◌, ◌*◌, ◌%◌, min, String, Bool, true, false, List, [], ◌∷◌, ◌++◌, map,
  reverse, any, filter, leb, ltb, eqb, ◌&&◌, ◌||◌, if◌then◌else◌, codes,
}

pub data PiiType : Type 0 where
  ssn credit_card bank_account address email phone : PiiType

-- What `exec` returns of a match: the text and its index.
pub record Span : Type 0 where
  pub value : String
  pub start : ℕ

-- The confidence is in hundredths.
pub record PiiMatch : Type 0 where
  pub type : PiiType
  pub value : String
  pub start : ℕ
  pub end_ : ℕ
  pub confidence : ℕ

-- `s.substring(0, n)` and `s.substring(n)`
unfoldable pub take_chars : ℕ → String → String
take_chars n String.[] = ""
take_chars zero (String.◌∷◌ c s) = ""
take_chars (suc n) (String.◌∷◌ c s) = String.◌∷◌ c (take_chars n s)

unfoldable pub drop_chars : ℕ → String → String
drop_chars n String.[] = ""
drop_chars zero (String.◌∷◌ c s) = String.◌∷◌ c s
drop_chars (suc n) (String.◌∷◌ c s) = drop_chars n s

-- `s.replace(/[- ]/g, "")`
unfoldable pub without_separators : String → String
without_separators String.[] = ""
without_separators (String.◌∷◌ c s) =
    let rest = without_separators s in
    if eqb (code c) b'-' || eqb (code c) b' ' then rest else String.◌∷◌ c rest

doubled : ℕ → ℕ
doubled digit = if ltb 9 (2 * digit) then 2 * digit - 9 else 2 * digit

luhn_sum : Bool → List ℕ → ℕ
unfolding doubled
luhn_sum should_double [] = 0
luhn_sum true (digit ∷ digits) = doubled digit + luhn_sum false digits
luhn_sum false (digit ∷ digits) = digit + luhn_sum true digits

-- `luhnCheck`, of a text of digits
unfoldable pub luhn_check : String → Bool
unfolding luhn_sum
luhn_check s = eqb (luhn_sum false (reverse (map (λ c. c - 48) (codes s))) % 10) 0

unfoldable pub match_of : PiiType → ℕ → Span → PiiMatch
match_of type confidence m = record {
  type = type;
  value = m.value;
  start = m.start;
  end_ = m.start + count m.value;
  confidence = confidence;
}

-- The test for an overlap, of a span from `start` to `end_`.
unfoldable pub overlaps : ℕ → ℕ → PiiMatch → Bool
overlaps start end_ m = leb m.start start && ltb start m.end_ || ltb m.start end_ && leb end_ m.end_

unfoldable pub insert_match : PiiMatch → List PiiMatch → List PiiMatch
insert_match m [] = m ∷ []
insert_match m (n ∷ ns) = if leb n.start m.start then m ∷ (n ∷ ns) else n ∷ insert_match m ns

-- `matches.sort((a, b) => b.start - a.start)`
unfoldable pub sort_matches : List PiiMatch → List PiiMatch
unfolding insert_match
sort_matches [] = []
sort_matches (m ∷ ms) = insert_match m (sort_matches ms)

module _ (exec : PiiType → String → List Span) (has_context : String → Bool) where
  -- `contextWindow` of a span
  abbrev context_window : String → ℕ → ℕ → String
  context_window content start end_ =
      drop_chars (start - 20) (take_chars (min (count content) (end_ + 20)) content)

  -- step 6: account numbers, less those that overlap a match before them
  unfoldable pub accounts : String → List Span → List PiiMatch → List PiiMatch
  unfolding overlaps match_of take_chars drop_chars
  accounts content [] matches = matches
  accounts content (s ∷ spans) matches =
      let end_ = s.start + count s.value in
      let confidence = if has_context (context_window content s.start end_) then 85 else 40 in
      let found = match_of bank_account confidence s ∷ [] in
      accounts content spans
        (matches ++ (if any (overlaps s.start end_) matches then [] else found))

  -- `detect(content)`
  unfoldable pub detect : String → List PiiMatch
  unfolding accounts match_of luhn_check without_separators
  detect content =
      let cards =
        filter (λ s. luhn_check (without_separators s.value)) (exec credit_card content) in
      sort_matches (
        accounts content (exec bank_account content) (
          map (match_of ssn 95) (exec ssn content)
          ++ (map (match_of credit_card 99) cards
              ++ (map (match_of email 95) (exec email content)
                  ++ (map (match_of phone 85) (exec phone content)
                      ++ map (match_of address 80) (exec address content))))))
