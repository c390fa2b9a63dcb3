-- ===== src/Worker/Queue.antt =====
-- `addJob` of apps/api/src/common/queue/job.queue.service.ts and `startWorkerLoop` of
-- apps/api/src/common/queue/job.worker.service.ts on the list that Redis keeps: `lpush` adds at its
-- front, `brpop` takes from its end. A payload is the value that `JSON.parse` gives back; the waiting,
-- the stop of the service and failures of Redis are left out.
use mini_sentinel.Prelude.{
  ℕ, zero, suc, ◌+◌, ◌≤◌, Option, none, some, List, [], ◌∷◌, ◌++◌, length, ◌≡◌, ◌⊎◌, inl, inr, refl,
  ◌∙◌, ap, append_assoc, append-nil, length-append, arith,
}

module _ {ℓ} {J : Type ℓ} where
  -- `lpush`
  unfoldable pub add_job : J → List J → List J
  add_job j q = j ∷ q

  -- `brpop`: the job at the end and the others, or `none` where the wait ends without a job
  unfoldable pub brpop : List J → Option (J × List J)
  brpop [] = none
  brpop (j ∷ q) = elim (brpop q) [ none ↦ some (j, []) | some (x, rest) ↦ some (x, j ∷ rest) ]

-- What happens to the queue: a request adds a job, or the worker looks for one.
pub data Event {ℓ} (J : Type ℓ) : Type ℓ where
  added : J → Event J
  polled : Event J

module _ {ℓ κ} {J : Type ℓ} {S : Type κ} (process : J → S → S) where
  abbrev handle : Option (J × List J) → List J × S → List J × S
  handle none (q, s) = (q, s)
  handle (some (j, rest)) (q, s) = (rest, process j s)

  -- one round of the loop
  unfoldable pub poll : List J × S → List J × S
  unfolding brpop
  poll (q, s) = handle (brpop q) (q, s)

  unfoldable pub after_events : List (Event J) → List J × S → List J × S
  unfolding poll add_job
  after_events [] state = state
  after_events (added j ∷ es) (q, s) = after_events es (add_job j q, s)
  after_events (polled ∷ es) state = after_events es (poll state)

  -- the rounds of the loop while no job is added
  unfoldable pub polls : ℕ → List J × S → List J × S
  unfolding poll
  polls zero state = state
  polls (suc n) state = polls n (poll state)

module _ {ℓ} {J : Type ℓ} where
  -- The jobs in the order of their arrival.
  abbrev pub arrivals : List (Event J) → List J
  arrivals [] = []
  arrivals (added j ∷ es) = j ∷ arrivals es
  arrivals (polled ∷ es) = arrivals es

module _ {ℓ κ} {J : Type ℓ} {S : Type κ} (process : J → S → S) where
  -- Jobs processed one after the other.
  abbrev pub process_all : List J → S → S
  process_all [] s = s
  process_all (j ∷ js) s = process_all js (process j s)

module _ {ℓ} {J : Type ℓ} where
  brpop-snoc : (q : List J) (j : J) → brpop (q ++ j ∷ []) ≡ some (j, q)
  unfolding brpop
  brpop-snoc [] j = refl
  brpop-snoc (i ∷ q) j = rw (brpop-snoc q j) refl

  pub snoc-cases : (q : List J) → (q ≡ []) ⊎ ((l : List J) × (j : J) × (q ≡ l ++ j ∷ []))
  snoc-cases [] = inl refl
  snoc-cases (i ∷ q) = elim (snoc-cases q) [
    | inl e ↦ inr ([], i, ap (λ t. i ∷ t) e)
    | inr (l, j, e) ↦ inr (i ∷ l, j, ap (λ t. i ∷ t) e)
  ]

  -- The jobs of a queue in the order of their arrival.
  abbrev pub oldest_first : List J → List J
  oldest_first [] = []
  oldest_first (j ∷ q) = oldest_first q ++ j ∷ []

  oldest_first-snoc : (q : List J) (j : J) → oldest_first (q ++ j ∷ []) ≡ j ∷ oldest_first q
  oldest_first-snoc [] j = refl
  oldest_first-snoc (i ∷ q) j = ap (λ t. t ++ i ∷ []) (oldest_first-snoc q j)

  pub length-snoc : (q : List J) (j : J) → length (q ++ j ∷ []) ≡ suc (length q)
  length-snoc q j = omega (arith, length-append q (j ∷ []))

module _ {ℓ κ} {J : Type ℓ} {S : Type κ} (process : J → S → S) where
  pub poll-snoc : (q : List J) (j : J) (s : S) → poll process (q ++ j ∷ [], s) ≡ (q, process j s)
  unfolding poll
  poll-snoc q j s = rw (brpop-snoc q j) refl

  polls-empty : (n : ℕ) (s : S) → polls process n ([], s) ≡ ([], s)
  unfolding polls poll
  polls-empty zero s = refl
  polls-empty (suc n) s = polls-empty n s

  pub polls-all :
      (n : ℕ) (q : List J) (s : S)
      → length q ≤ n
      → polls process n (q, s) ≡ ([], process_all process (oldest_first q) s)
  unfolding polls poll
  polls-all zero [] s h = refl
  polls-all zero (j ∷ q) s h = absurd (omega (arith, h))
  polls-all (suc n) q s h = elim (snoc-cases q) [
    | inl e ↦ rw e (polls-empty n s)
    | inr (l, j, e) ↦
        let fewer : length l ≤ n = omega (arith, h, ap length e, length-snoc l j) in
        rw (e, poll-snoc l j s, oldest_first-snoc l j) (polls-all n l (process j s) fewer)
  ]

  -- Whatever was added and polled before, in whatever order, as many more rounds of the loop as there are
  -- jobs have processed every job that was added, once, in the order of arrival, and the queue is empty.
  pub polls-after_events :
      (n : ℕ) (es : List (Event J)) (q : List J) (s : S)
      → length q + length (arrivals es) ≤ n
      → polls process n (after_events process es (q, s))
        ≡ ([], process_all process (oldest_first q ++ arrivals es) s)
  unfolding after_events add_job poll
  polls-after_events n [] q s h = rw append-nil (polls-all n q s (omega (arith, h)))
  polls-after_events n (added j ∷ es) q s h =
      polls-after_events n es (j ∷ q) s (omega (arith, h))
      ∙ ap (λ js. ([], process_all process js s))
          (append_assoc (oldest_first q) (j ∷ []) (arrivals es))
  polls-after_events n (polled ∷ es) q s h = elim (snoc-cases q) [
    | inl e ↦ rw e (polls-after_events n es [] s (omega (arith, h)))
    | inr (l, j, e) ↦
        let fewer : length l + length (arrivals es) ≤ n =
          omega (arith, h, ap length e, length-snoc l j) in
        rw (e, poll-snoc l j s, oldest_first-snoc l j)
          (polls-after_events n es l (process j s) fewer)
  ]
