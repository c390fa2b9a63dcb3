-- ===== src/Pii/Order.antt =====
-- The order of the matches of apps/api/src/validation/pii/pii.detector.ts, on which the replacement from
-- the end of a text relies.
use mini_sentinel.Prelude.{
  ℕ, ◌≤◌, String, Bool, List, [], ◌∷◌, All, arith, leb, Bool-cases, inl, inr,
}
use mini_sentinel.Pii.Detector.{PiiType, Span, PiiMatch, insert_match, sort_matches, detect}

-- No match starts after one before it.
abbrev pub Descending : List PiiMatch → Type 0
Descending [] = Unit
Descending (m ∷ ms) = All (λ n. n.start ≤ m.start) ms × Descending ms

All-insert_match :
    (k : ℕ) (m : PiiMatch) (ms : List PiiMatch)
    → m.start ≤ k
    → All (λ n. n.start ≤ k) ms
    → All (λ n. n.start ≤ k) (insert_match m ms)
unfolding insert_match
All-insert_match k m [] h hs = (h, tt)
All-insert_match k m (n ∷ ns) h (hn, hs) = elim (Bool-cases (leb n.start m.start)) [
  | inl e ↦ rw e (h, (hn, hs))
  | inr e ↦ rw e (hn, All-insert_match k m ns h hs)
]

All-weaken :
    (j k : ℕ) (ms : List PiiMatch) → j ≤ k → All (λ n. n.start ≤ j) ms → All (λ n. n.start ≤ k) ms
All-weaken j k [] h hs = tt
All-weaken j k (m ∷ ms) h (hm, hs) = (omega (arith, hm), All-weaken j k ms h hs)

Descending-insert_match :
    (m : PiiMatch) (ms : List PiiMatch) → Descending ms → Descending (insert_match m ms)
unfolding insert_match
Descending-insert_match m [] h = (tt, tt)
Descending-insert_match m (n ∷ ns) (hn, h) = elim (Bool-cases (leb n.start m.start)) [
  | inl e ↦
      let below : n.start ≤ m.start = ground (arith, e) in
      rw e ((below, All-weaken n.start m.start ns below hn), (hn, h))
  | inr e ↦
      let above : m.start ≤ n.start = ground (arith, e) in
      rw e (All-insert_match n.start m ns above hn, Descending-insert_match m ns h)
]

Descending-sort_matches : (ms : List PiiMatch) → Descending (sort_matches ms)
unfolding sort_matches
Descending-sort_matches [] = tt
Descending-sort_matches (m ∷ ms) =
    Descending-insert_match m (sort_matches ms) (Descending-sort_matches ms)

-- The matches of a text come with their starts in descending order, whatever the regular expressions
-- match.
pub detect-Descending :
    (exec : PiiType → String → List Span) (has_context : String → Bool) (content : String)
    → Descending (detect exec has_context content)
unfolding detect
detect-Descending exec has_context content = Descending-sort_matches _
