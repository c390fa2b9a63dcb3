-- ===== src/Pii/Found.antt =====
-- What `detect` of apps/api/src/validation/pii/pii.detector.ts finds in a text.
use Prim.Native.String.{count}
use mini_sentinel.Prelude.{
  append-nil, ℕ, ◌+◌, String, Bool, true, false, List, [], ◌∷◌, ◌++◌, map, any, filter, any-append,
  eqb, All-append, ◌&&◌, ◌||◌, ◌≡◌, refl, ◌∙◌, ap, ◌==◌, eq_iff, Bool-cases, inl, inr, arith,
}
use mini_sentinel.Pii.Detector.{
  PiiType, ssn, credit_card, bank_account, address, email, phone, Span, PiiMatch, match_of,
  overlaps, insert_match, sort_matches, luhn_check, without_separators, accounts, detect,
}
use mini_sentinel.Pii.Apart.{
  number, is_of, IsApart, IsApart-sort_matches, plain-IsApart, plain-map, IsApart-accounts,
}
use mini_sentinel.Pii.Order.{Descending, detect-Descending}

-- The match has the type, the text and the index.
abbrev pub is_match : PiiType → String → ℕ → PiiMatch → Bool
is_match type value start m = is_of type m && (m.value == value && eqb m.start start)

abbrev pub is_span : String → ℕ → Span → Bool
is_span value start s = s.value == value && eqb s.start start

any-insert_match :
    (p : PiiMatch → Bool) (m : PiiMatch) (ms : List PiiMatch)
    → any p (insert_match m ms) ≡ p m || any p ms
unfolding insert_match
any-insert_match p m [] = refl
any-insert_match p m (n ∷ ns) = ground (arith, any-insert_match p m ns)

any-sort_matches : (p : PiiMatch → Bool) (ms : List PiiMatch) → any p (sort_matches ms) ≡ any p ms
unfolding sort_matches
any-sort_matches p [] = refl
any-sort_matches p (m ∷ ms) =
    ground (arith, any-insert_match p m (sort_matches ms), any-sort_matches p ms)

module _ (exec : PiiType → String → List Span) (has_context : String → Bool)
    (content : String) where
  any-accounts :
      (type : PiiType) (value : String) (start : ℕ) (spans : List Span) (ms : List PiiMatch)
      → eqb 2 (number type) ≡ false
      → any (is_match type value start) (accounts exec has_context content spans ms)
        ≡ any (is_match type value start) ms
  unfolding accounts match_of
  any-accounts type value start [] ms h = refl
  any-accounts type value start (s ∷ spans) ms h =
      elim (Bool-cases (any (overlaps s.start (s.start + count s.value)) ms)) [
        | inl e ↦ rw (e, append-nil) (any-accounts type value start spans ms h)
        | inr e ↦ rw e (
            any-accounts type value start spans _ h
            ∙ any-append (is_match type value start) ms _
            ∙ ground (arith, h))
      ]

abbrev has_span : PiiType → PiiType → String → ℕ → List Span → Bool
has_span type other value start spans =
    eqb (number other) (number type) && any (is_span value start) spans

any-part :
    (type other : PiiType) (confidence : ℕ) (value : String) (start : ℕ) (spans : List Span)
    → any (is_match type value start) (map (match_of other confidence) spans)
      ≡ eqb (number other) (number type) && any (is_span value start) spans
unfolding match_of
any-part type other confidence value start [] = ground arith
any-part type other confidence value start (s ∷ spans) =
    ground (arith, any-part type other confidence value start spans)

any-cards :
    (value : String) (start : ℕ) (spans : List Span)
    → any (is_span value start) (filter (λ s. luhn_check (without_separators s.value)) spans)
      ≡ any (is_span value start) spans && luhn_check (without_separators value)
any-cards value start [] = refl
any-cards value start (s ∷ spans) = elim (Bool-cases (s.value == value)) [
  | inl e ↦
      let same : s.value ≡ value = ground (arith, e, eq_iff s.value value) in
      let luhn : luhn_check (without_separators s.value) ≡ luhn_check (without_separators value) =
        ap (λ t. luhn_check (without_separators t)) same in
      ground (arith, e, luhn, any-cards value start spans)
  | inr e ↦ ground (arith, e, any-cards value start spans)
]

module _ (exec : PiiType → String → List Span) (has_context : String → Bool)
    (content : String) where
  -- Where the test of a card number is wanted.
  abbrev pub is_valid : PiiType → String → Bool
  is_valid credit_card value = luhn_check (without_separators value)
  is_valid _ value = true

  abbrev cards : List Span
  cards = filter (λ s. luhn_check (without_separators s.value)) (exec credit_card content)

  abbrev plain : List PiiMatch
  plain =
      map (match_of ssn 95) (exec ssn content)
      ++ (map (match_of credit_card 99) cards
          ++ (map (match_of email 95) (exec email content)
              ++ (map (match_of phone 85) (exec phone content)
                  ++ map (match_of address 80) (exec address content))))

  IsApart-plain : IsApart plain
  IsApart-plain = plain-IsApart plain (
      All-append _ (map (match_of ssn 95) (exec ssn content)) _ (plain-map ssn 95 _ refl) (
        All-append _ (map (match_of credit_card 99) cards) _ (plain-map credit_card 99 _ refl) (
          All-append _ (map (match_of email 95) (exec email content)) _ (plain-map email 95 _ refl)
            (All-append _ (map (match_of phone 85) (exec phone content)) _
              (plain-map phone 85 _ refl) (plain-map address 80 _ refl)))))

  any-plain :
      (type : PiiType) (value : String) (start : ℕ)
      → any (is_match type value start) plain
        ≡ has_span type ssn value start (exec ssn content)
          || (has_span type credit_card value start cards
              || (has_span type email value start (exec email content)
                  || (has_span type phone value start (exec phone content)
                      || has_span type address value start (exec address content))))
  any-plain type value start =
      rw
        (
          any-append, any-part, any-append, any-part, any-append, any-part, any-append, any-part,
          any-part,
        )
        refl

  plain-found :
      (type : PiiType) (value : String) (start : ℕ)
      → eqb 2 (number type) ≡ false
      → any (is_match type value start) plain
        ≡ any (is_span value start) (exec type content) && is_valid type value
  plain-found ssn value start h = any-plain ssn value start ∙ ground arith
  plain-found credit_card value start h =
      any-plain credit_card value start
      ∙ ground (arith, any-cards value start (exec credit_card content))
  plain-found bank_account value start h = absurd (ground (arith, h))
  plain-found address value start h = any-plain address value start ∙ ground arith
  plain-found email value start h = any-plain email value start ∙ ground arith
  plain-found phone value start h = any-plain phone value start ∙ ground arith

  -- The matches come with their starts in descending order; no account number starts or ends inside a
  -- match of another type; and of another type than the account number, a text is matched at an index
  -- exactly where the regular expression of the type matches it there, for a card number provided that
  -- it passes the Luhn test without its separators.
  pub detect_lem :
      (type : PiiType) (value : String) (start : ℕ)
      → eqb 2 (number type) ≡ false
      → let matches = detect exec has_context content in
        Descending matches
        × IsApart matches
        × (any (is_match type value start) matches
            ≡ any (is_span value start) (exec type content) && is_valid type value)
  unfolding detect
  detect_lem type value start other =
      let accounted = accounts exec has_context content (exec bank_account content) plain in
      (
        detect-Descending exec has_context content,
        IsApart-sort_matches accounted (
            IsApart-accounts exec has_context content (exec bank_account content) plain
              IsApart-plain),
        any-sort_matches (is_match type value start) accounted
            ∙ any-accounts exec has_context content type value start (exec bank_account content)
                plain other
            ∙ plain-found type value start other,
      )
