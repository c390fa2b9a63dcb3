-- ===== src/Metrics/Percentiles.antt =====
-- What the figures of `getMetricsSummary` (apps/api/src/integration/metrics.service.ts) mean.
use mini_sentinel.Prelude.{
  ℕ, zero, suc, ◌+◌, ◌-◌, ◌*◌, ◌/◌, ◌≤◌, ◌<◌, min, String, Bool, true, false, Option, none, some,
  List, [], ◌∷◌, ◌≡◌, refl, filter, length, leb, get_elem?, All, ◌==◌, eq_iff, Bool-cases, inl, inr,
  arith,
}
use mini_sentinel.Values.Json.{Json, null, bool, num, str, arr, obj}
use mini_sentinel.Values.Runtime.{Runtime}
use mini_sentinel.Audit.Row.{Row, own}
use mini_sentinel.Metrics.Summary.{
  insert_latency, sort_latencies, percentile, percentile_index, is_text, has_verdict, is_failed,
  count, latencies, get_metrics_summary,
}

-- No latency is below one before it.
abbrev pub Ascending : List ℕ → Type 0
Ascending [] = Unit
Ascending (a ∷ ls) = All (λ b. a ≤ b) ls × Ascending ls

All-insert_latency :
    (k a : ℕ) (bs : List ℕ) → k ≤ a → All (λ b. k ≤ b) bs → All (λ b. k ≤ b) (insert_latency a bs)
unfolding insert_latency
All-insert_latency k a [] h hs = (h, tt)
All-insert_latency k a (b ∷ bs) h (hb, hs) = elim (Bool-cases (leb a b)) [
  | inl e ↦ rw e (h, (hb, hs))
  | inr e ↦ rw e (hb, All-insert_latency k a bs h hs)
]

All-weaken : (j k : ℕ) (bs : List ℕ) → k ≤ j → All (λ b. j ≤ b) bs → All (λ b. k ≤ b) bs
All-weaken j k [] h hs = tt
All-weaken j k (b ∷ bs) h (hb, hs) = (omega (arith, hb, h), All-weaken j k bs h hs)

insert-Ascending : (a : ℕ) (bs : List ℕ) → Ascending bs → Ascending (insert_latency a bs)
unfolding insert_latency
insert-Ascending a [] h = (tt, tt)
insert-Ascending a (b ∷ bs) (hb, h) = elim (Bool-cases (leb a b)) [
  | inl e ↦
      let below : a ≤ b = ground (arith, e) in rw e ((below, All-weaken b a bs below hb), (hb, h))
  | inr e ↦
      let above : b ≤ a = ground (arith, e) in
      rw e (All-insert_latency b a bs above hb, insert-Ascending a bs h)
]

sort-Ascending : (ls : List ℕ) → Ascending (sort_latencies ls)
unfolding sort_latencies
sort-Ascending [] = tt
sort-Ascending (a ∷ ls) = insert-Ascending a (sort_latencies ls) (sort-Ascending ls)

count-insert :
    (p : ℕ → Bool) (a : ℕ) (bs : List ℕ)
    → length (filter p (insert_latency a bs)) ≡ length (filter p (a ∷ bs))
unfolding insert_latency
count-insert p a [] = refl
count-insert p a (b ∷ bs) = ground (arith, count-insert p a bs)

count-sort :
    (p : ℕ → Bool) (ls : List ℕ) → length (filter p (sort_latencies ls)) ≡ length (filter p ls)
unfolding sort_latencies
count-sort p [] = refl
count-sort p (a ∷ ls) = ground (arith, count-sort p ls, count-insert p a (sort_latencies ls))

length-insert : (a : ℕ) (bs : List ℕ) → length (insert_latency a bs) ≡ suc (length bs)
unfolding insert_latency
length-insert a [] = refl
length-insert a (b ∷ bs) = ground (arith, length-insert a bs)

length-sort : (ls : List ℕ) → length (sort_latencies ls) ≡ length ls
unfolding sort_latencies
length-sort [] = refl
length-sort (a ∷ ls) = omega (arith, length-insert a (sort_latencies ls), length-sort ls)

All-elem : (k : ℕ) (ls : List ℕ) (i v : ℕ) → All (λ b. k ≤ b) ls → get_elem? ls i ≡ some v → k ≤ v
All-elem k [] i v h e = absurd (ground (arith, e))
All-elem k (a ∷ ls) zero v (ha, h) e = ground (arith, ha, e)
All-elem k (a ∷ ls) (suc i) v (ha, h) e = All-elem k ls i v h e

-- In an ascending list the value at an index has as many values below or equal.
below-value :
    (ls : List ℕ) (i v : ℕ)
    → Ascending ls
    → get_elem? ls i ≡ some v
    → suc i ≤ length (filter (λ a. leb a v) ls)
below-value [] i v h e = absurd (ground (arith, e))
below-value (a ∷ ls) zero v h e = ground (arith, e)
below-value (a ∷ ls) (suc i) v (ha, h) e =
    ground (arith, All-elem a ls i v ha e, below-value ls i v h e)

elem-some : (ls : List ℕ) (i : ℕ) → i < length ls → (v : ℕ) × (get_elem? ls i ≡ some v)
elem-some [] i h = absurd (omega (arith, h))
elem-some (a ∷ ls) zero h = (a, refl)
elem-some (a ∷ ls) (suc i) h = elem-some ls i (omega (arith, h))

enough : (n m c : ℕ) → 0 < n → m ≤ n * 100 → suc (min (n - 1) (m / 100)) ≤ c → m ≤ c * 100
enough n m c some_left part h = omega (arith, some_left, part, h)

-- Of latencies that are not none, at least the given percentage is at most the percentile.
percentile-covers :
    (percent : ℕ) (ls : List ℕ)
    → 0 < length ls
    → length ls * percent ≤ length ls * 100
    → length ls * percent ≤ length (filter (λ a. leb a (percentile percent ls)) ls) * 100
unfolding percentile
percentile-covers percent ls some_left part =
    let i = percentile_index percent (length ls) in
    let inside : i < length (sort_latencies ls) = omega (arith, length-sort ls, some_left) in
    let (v, e) = elem-some (sort_latencies ls) i inside in
    let found = below-value (sort_latencies ls) i v (sort-Ascending ls) e in
    rw e (
      enough (length ls) (length ls * percent) (length (filter (λ a. leb a v) ls)) some_left part
        (omega (arith, found, count-sort (λ a. leb a v) ls)))

module _ {F : Type 0} where
  is_text-apart :
      (a b : String) (o : Option (Json F))
      → (a == b) ≡ false
      → is_text a o ≡ true
      → is_text b o ≡ false
  is_text-apart a b none h e = refl
  is_text-apart a b (some null) h e = refl
  is_text-apart a b (some (bool x)) h e = refl
  is_text-apart a b (some (num x)) h e = refl
  is_text-apart a b (some (str s)) h e = ground (arith, h, e, eq_iff s a, eq_iff s b, eq_iff a b)
  is_text-apart a b (some (arr vs)) h e = refl
  is_text-apart a b (some (obj fs)) h e = refl

  failed-le : (rows : List (Row F)) → count is_failed rows ≤ count (has_verdict "BLOCK") rows
  unfolding is_failed
  failed-le [] = omega arith
  failed-le (r ∷ rows) = ground (arith, failed-le rows)

  verdicts-le :
      (rows : List (Row F))
      → count (has_verdict "APPROVE") rows
          + count (has_verdict "BLOCK") rows
          + count (has_verdict "ESCALATE") rows
        ≤ length rows
  verdicts-le [] = omega arith
  verdicts-le (r ∷ rows) =
      let verdict = own r.decision_record "verdict" in
      ground (
        arith,
        verdicts-le rows,
        is_text-apart "APPROVE" "BLOCK" verdict refl,
        is_text-apart "APPROVE" "ESCALATE" verdict refl,
        is_text-apart "BLOCK" "ESCALATE" verdict refl,
      )

module _ {F : Type 0} ⦃js : Runtime F⦄ (time : String → ℕ) where
  -- When a request is processed, at least 95 percent of the latencies are at most p95, and at least 99
  -- percent at most p99. The failed requests are at most those with the verdict BLOCK, and the requests
  -- with the verdicts APPROVE, BLOCK and ESCALATE are together at most all requests.
  pub get_metrics_summary-bounds :
      (rows : List (Row F))
      → 0 < length (latencies time rows)
      → let s = get_metrics_summary time rows in
        let ls = latencies time rows in
        let d = s.verdict_distribution in
        (length ls * 95 ≤ length (filter (λ a. leb a s.p95_latency) ls) * 100)
        × (length ls * 99 ≤ length (filter (λ a. leb a s.p99_latency) ls) * 100)
        × (s.failed ≤ d.block)
        × (d.approve + d.block + d.escalate ≤ s.total_requests)
  unfolding get_metrics_summary
  get_metrics_summary-bounds rows some_left =
      let ls = latencies time rows in
      (
        percentile-covers 95 ls some_left (omega arith),
        percentile-covers 99 ls some_left (omega arith),
        failed-le rows,
        verdicts-le rows,
      )
