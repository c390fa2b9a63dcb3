-- ===== src/Pii/Apart.antt =====
-- That the account numbers of `detect` (apps/api/src/validation/pii/pii.detector.ts) lie apart from the
-- other matches.
use Prim.Native.String.{count}
use mini_sentinel.Prelude.{
  append-nil, ℕ, ◌+◌, String, Bool, true, false, not, List, [], ◌∷◌, ◌++◌, map, any, leb, eqb, All,
  All-append, ◌&&◌, ◌≡◌, refl, Bool-cases, inl, inr, arith,
}
use mini_sentinel.Pii.Detector.{
  PiiType, ssn, credit_card, bank_account, address, email, phone, Span, PiiMatch, match_of,
  overlaps, insert_match, sort_matches, accounts,
}

abbrev pub number : PiiType → ℕ
number ssn = 0
number credit_card = 1
number bank_account = 2
number address = 3
number email = 4
number phone = 5

abbrev pub is_of : PiiType → PiiMatch → Bool
is_of type m = eqb (number m.type) (number type)

-- A match of an account number and one of another type, over which it lies in part.
abbrev is_clash : PiiMatch → PiiMatch → Bool
is_clash a m = is_of bank_account a && (not (is_of bank_account m) && overlaps a.start a.end_ m)

abbrev pub IsApart : List PiiMatch → Type 0
IsApart ms = All (λ a. All (λ m. is_clash a m ≡ false) ms) ms

module _ {κ} (P : PiiMatch → Type κ) where
  All-insert_match :
      (m : PiiMatch) (ms : List PiiMatch) → P m → All P ms → All P (insert_match m ms)
  unfolding insert_match
  All-insert_match m [] h hs = (h, tt)
  All-insert_match m (n ∷ ns) h (hn, hs) = elim (Bool-cases (leb n.start m.start)) [
    | inl e ↦ rw e (h, (hn, hs))
    | inr e ↦ rw e (hn, All-insert_match m ns h hs)
  ]

  All-sort_matches : (ms : List PiiMatch) → All P ms → All P (sort_matches ms)
  unfolding sort_matches
  All-sort_matches [] h = tt
  All-sort_matches (m ∷ ms) (hm, h) =
      All-insert_match m (sort_matches ms) hm (All-sort_matches ms h)

module _ (P : PiiMatch → Type 0) (Q : PiiMatch → Type 0) where
  All-implied : (ms : List PiiMatch) → ((m : PiiMatch) → P m → Q m) → All P ms → All Q ms
  All-implied [] f h = tt
  All-implied (m ∷ ms) f (hm, h) = (f m hm, All-implied ms f h)

pub IsApart-sort_matches : (ms : List PiiMatch) → IsApart ms → IsApart (sort_matches ms)
IsApart-sort_matches ms h =
    All-sort_matches (λ a. All (λ m. is_clash a m ≡ false) (sort_matches ms)) ms
      (All-implied (λ a. All (λ m. is_clash a m ≡ false) ms)
        (λ a. All (λ m. is_clash a m ≡ false) (sort_matches ms)) ms
        (λ a. All-sort_matches (λ m. is_clash a m ≡ false) ms) h)

-- Matches of other types than the account number clash with none.
plain-unclashed :
    (a : PiiMatch) (ms : List PiiMatch)
    → is_of bank_account a ≡ false
    → All (λ m. is_clash a m ≡ false) ms
plain-unclashed a [] h = tt
plain-unclashed a (m ∷ ms) h = (ground (arith, h), plain-unclashed a ms h)

pub plain-IsApart : (ms : List PiiMatch) → All (λ a. is_of bank_account a ≡ false) ms → IsApart ms
plain-IsApart ms h =
    All-implied (λ a. is_of bank_account a ≡ false) (λ a. All (λ m. is_clash a m ≡ false) ms) ms
      (λ a. plain-unclashed a ms) h

pub plain-map :
    (type : PiiType) (confidence : ℕ) (spans : List Span)
    → eqb (number type) 2 ≡ false
    → All (λ a. is_of bank_account a ≡ false) (map (match_of type confidence) spans)
unfolding match_of
plain-map type confidence [] h = tt
plain-map type confidence (s ∷ spans) h = (h, plain-map type confidence spans h)

unclashed-append :
    (ms : List PiiMatch) (b : PiiMatch)
    → is_of bank_account b ≡ true
    → (a : PiiMatch) → All (λ m. is_clash a m ≡ false) ms
    → All (λ m. is_clash a m ≡ false) (ms ++ b ∷ [])
unclashed-append ms b account a h =
    All-append (λ m. is_clash a m ≡ false) ms (b ∷ []) h (ground (arith, account), tt)

unoverlapped-unclashed :
    (b : PiiMatch) (ms : List PiiMatch)
    → any (overlaps b.start b.end_) ms ≡ false
    → All (λ m. is_clash b m ≡ false) ms
unoverlapped-unclashed b [] h = tt
unoverlapped-unclashed b (m ∷ ms) h =
    (ground (arith, h), unoverlapped-unclashed b ms (ground (arith, h)))

IsApart-append :
    (ms : List PiiMatch) (b : PiiMatch)
    → is_of bank_account b ≡ true
    → any (overlaps b.start b.end_) ms ≡ false
    → IsApart ms
    → IsApart (ms ++ b ∷ [])
IsApart-append ms b account free h =
    All-append (λ a. All (λ m. is_clash a m ≡ false) (ms ++ b ∷ [])) ms (b ∷ [])
      (All-implied (λ a. All (λ m. is_clash a m ≡ false) ms)
        (λ a. All (λ m. is_clash a m ≡ false) (ms ++ b ∷ [])) ms (unclashed-append ms b account) h)
      (unclashed-append ms b account b (unoverlapped-unclashed b ms free), tt)

module _ (exec : PiiType → String → List Span) (has_context : String → Bool)
    (content : String) where
  pub IsApart-accounts :
      (spans : List Span) (ms : List PiiMatch)
      → IsApart ms
      → IsApart (accounts exec has_context content spans ms)
  unfolding accounts match_of
  IsApart-accounts [] ms h = h
  IsApart-accounts (s ∷ spans) ms h =
      elim (Bool-cases (any (overlaps s.start (s.start + count s.value)) ms)) [
        | inl e ↦ rw (e, append-nil) (IsApart-accounts spans ms h)
        | inr e ↦ rw e (IsApart-accounts spans _ (IsApart-append ms _ refl e h))
      ]
