-- ===== src/Gateway/Drained.antt =====
-- What the loop of the worker (apps/api/src/common/queue/job.worker.service.ts) makes of the queue in a
-- state that the steps of `Gateway.Steps` reach.
use mini_sentinel.Prelude.{
  ◌≤◌, ◌++◌, String, false, some, List, [], ◌∷◌, length, ◌≡◌, refl, sym, ◌∙◌, ap, subst, ◌==◌,
  eq_iff, All, All-append, All-split, Bool-cases, inl, inr, arith,
}
use mini_sentinel.Values.Json.{Json}
use mini_sentinel.Values.Runtime.{Runtime}
use mini_sentinel.Types.{ParsedRequest, Decision}
use mini_sentinel.Types.Encode.{verdict_name}
use mini_sentinel.Decision.Scan.{Policy}
use mini_sentinel.Audit.Row.{Row, own}
use mini_sentinel.Audit.Store.{find_request}
use mini_sentinel.Audit.Service.{UpdateData, update_record_and_recalculate, verified, verify_chain}
use mini_sentinel.Audit.Verify.{verify_chain-Chain}
use mini_sentinel.Audit.Heal.Loop.{Distinct}
use mini_sentinel.Audit.Heal.Prefix.{NonEmpty}
use mini_sentinel.Audit.Others.{Distinct-update_record, find_request-other}
use mini_sentinel.Audit.Trail.{IsTrail}
use mini_sentinel.Pipeline.Run.{Validators}
use mini_sentinel.Review.Tickets.{Ticket}
use mini_sentinel.Worker.Run.{Site, Occasion}
use mini_sentinel.Worker.Queue.{brpop, poll, poll-snoc, snoc-cases, length-snoc}
use mini_sentinel.Worker.Rows.{run_job-kept}
use mini_sentinel.Worker.Settled.{HasVerdict, IsSettled, job_decision}
use mini_sentinel.Gateway.Intercept.{Job, Gateway}
use mini_sentinel.Gateway.Known.{has_row-find_request, IsKnown, IsSound}
use mini_sentinel.Gateway.Polling.{
  IsAnswered, HasVerdict-IsAnswered, verdict_name-pending, run_job-IsAnswered,
}
use mini_sentinel.Gateway.Steps.{work_job, work, Round, work_rounds, Reached}
use mini_sentinel.Gateway.Sound.{work_job-IsSound, Reached-IsSound}

module _ {F : Type 0} where
  -- The row of the request has a verdict that is not PENDING.
  abbrev IsDecided : String → List (Row F) → Type 0
  IsDecided request_id rows =
      (verdict : String) × ((verdict == "PENDING") ≡ false) × HasVerdict request_id verdict rows

  IsSettled-IsDecided :
      (request_id : String) (d : Decision F) (rows : List (Row F))
      → IsSettled request_id d rows
      → IsDecided request_id rows
  IsSettled-IsDecided request_id d rows (inl h) =
      (verdict_name d.verdict, verdict_name-pending d.verdict, h)
  IsSettled-IsDecided request_id d rows (inr h) = ("BLOCK", refl, h)

module _ {F : Type 0} ⦃js : Runtime F⦄ where
  All-IsAnswered :
      (ts : List Ticket) (rows : List (Row F)) (q : List (Job F))
      → All (λ job. IsDecided job.request_id rows) q
      → All (λ job. IsAnswered job.request_id ts rows) q
  All-IsAnswered ts rows [] h = tt
  All-IsAnswered ts rows (job ∷ q) ((verdict, decided, here), h) = (
    HasVerdict-IsAnswered job.request_id verdict ts rows decided here,
    All-IsAnswered ts rows q h,
  )

module _ {F : Type 0} ⦃js : Runtime F⦄ (sha256 : String → String) where
  IsDecided-update :
      (request_id other : String) (u : UpdateData F) (t : List (Row F))
      → (request_id == other) ≡ false
      → Distinct t × IsDecided other t
      → Distinct (update_record_and_recalculate sha256 request_id u t).0
        × IsDecided other (update_record_and_recalculate sha256 request_id u t).0
  IsDecided-update request_id other u t apart (d, (verdict, decided, (y, found, named))) =
      let (r, here, same) = find_request-other sha256 request_id other u t y apart d found in
      (
        Distinct-update_record sha256 request_id u t d,
        (verdict, decided, (r, here, ap (λ q. own q.decision_record "verdict") same ∙ named)),
      )

module _ {F : Type 0} ⦃js : Runtime F⦄ (sha256 : String → String) (classify : String → String)
    (execute : ParsedRequest F → Json F) (ne : NonEmpty sha256) (validators : Validators F)
    (policy : Policy F) (occasion : Occasion F) where
  abbrev after_job : Job F → Site F → Site F
  after_job = work_job sha256 classify execute validators policy occasion

  after_job-IsDecided :
      (job : Job F) (site : Site F) (x : Row F)
      → find_request job.request_id site.desk.rows ≡ some x
      → IsDecided job.request_id (after_job job site).desk.rows
  after_job-IsDecided job site x found =
      IsSettled-IsDecided job.request_id
        (job_decision classify validators policy occasion.mode job.parsed_request) _
        ((run_job-IsAnswered sha256 classify execute validators policy occasion job.request_id
          job.parsed_request site x [] found).0)

  IsDecided-after_job :
      (job : Job F) (site : Site F) (other : String)
      → Distinct site.desk.rows
      → IsDecided other site.desk.rows
      → IsDecided other (after_job job site).desk.rows
  IsDecided-after_job job site other d (verdict, decided, (y, found, named)) =
      elim (Bool-cases (job.request_id == other)) [
        | inl e ↦
            let same : job.request_id ≡ other = ground (arith, e, eq_iff job.request_id other) in
            subst (λ i. IsDecided i (after_job job site).desk.rows) same
              (after_job-IsDecided job site y
                (subst (λ i. find_request i site.desk.rows ≡ some y) (sym same) found))
        | inr e ↦
            (run_job-kept sha256 classify execute validators policy occasion job.request_id
              job.parsed_request site (λ t. Distinct t × IsDecided other t)
              (λ u t h. IsDecided-update sha256 job.request_id other u t e h)
              (d, (verdict, decided, (y, found, named)))).1
      ]

module _ {F : Type 0} ⦃js : Runtime F⦄ (sha256 : String → String) (classify : String → String)
    (execute : ParsedRequest F → Json F) (ne : NonEmpty sha256) where
  -- The trail is one, the queue is empty, what was decided still is, and so are the jobs of the queue.
  abbrev IsDrained : Gateway F → Gateway F → Type 0
  IsDrained g after =
      IsTrail sha256 after.site.desk.rows
      × (after.queue ≡ [])
      × ((id : String) → IsDecided id g.site.desk.rows → IsDecided id after.site.desk.rows)
      × All (λ job. IsDecided job.request_id after.site.desk.rows) g.queue

  work-snoc :
      (r : Round F) (site : Site F) (q : List (Job F)) (job : Job F)
      → work sha256 classify execute r.validators r.policy r.occasion
          (record { site = site; queue = q ++ job ∷ [] })
        ≡ record {
          site = work_job sha256 classify execute r.validators r.policy r.occasion job site;
          queue = q;
        }
  unfolding work
  work-snoc r site q job =
      ap (λ p. record { site = p.1; queue = p.0 })
        (poll-snoc (work_job sha256 classify execute r.validators r.policy r.occasion) q job site)

  work_last :
      (r : Round F) (rs : List (Round F)) (site : Site F) (q : List (Job F)) (job : Job F)
      → IsSound sha256 (record { site = site; queue = q ++ job ∷ [] })
      → (let next : Gateway F = record {
        site = work_job sha256 classify execute r.validators r.policy r.occasion job site;
        queue = q;
      } in
          IsSound sha256 next → IsDrained next (work_rounds sha256 classify execute rs next))
      → IsDrained
          (record { site = site; queue = q ++ job ∷ [] })
          (work_rounds sha256 classify execute rs (record {
            site = work_job sha256 classify execute r.validators r.policy r.occasion job site;
            queue = q;
          }))
  work_last r rs site q job sound rest =
      let (before, ((row, dated), none')) =
        All-split (IsKnown site.desk.rows) q (job ∷ []) sound.known in
      let (x, found) = has_row-find_request job.request_id site.desk.rows row in
      let (trail, empty, kept, decided) = rest (
        work_job-IsSound sha256 classify execute ne r.validators r.policy r.occasion site q job
          sound) in
      let this =
        after_job-IsDecided sha256 classify execute ne r.validators r.policy r.occasion job site x
          found in
      (
        trail,
        empty,
        (λ id h. kept id (
            IsDecided-after_job sha256 classify execute ne r.validators r.policy r.occasion job site
              id sound.trail.distinct h)),
        All-append _ q (job ∷ []) decided (kept job.request_id this, tt),
      )

  work_rounds-IsDrained :
      (rs : List (Round F)) (site : Site F) (queue : List (Job F))
      → length queue ≤ length rs
      → IsSound sha256 (record { site = site; queue = queue })
      → IsDrained
          (record { site = site; queue = queue })
          (work_rounds sha256 classify execute rs (record { site = site; queue = queue }))
  unfolding work_rounds work poll brpop
  work_rounds-IsDrained [] site [] h sound = (sound.trail, refl, (λ id d. d), tt)
  work_rounds-IsDrained [] site (job ∷ q) h sound = absurd (omega (arith, h))
  work_rounds-IsDrained (r ∷ rs) site queue h sound = elim (snoc-cases queue) [
    | inl e ↦ rw e (work_rounds-IsDrained rs site [] (omega arith) (rw e at sound))
    | inr (q, job, e) ↦
        let fewer : length q ≤ length rs = omega (arith, h, ap length e, length-snoc q job) in
        rw e (
          subst
            (λ n.
              IsDrained (record { site = site; queue = q ++ job ∷ [] })
                (work_rounds sha256 classify execute rs n))
            (sym (work-snoc r site q job))
            (work_last r rs site q job (rw e at sound)
              (λ next. work_rounds-IsDrained rs _ q fewer next)))
  ]

  -- In every state that is reached: as many rounds of the worker as there are jobs in the queue, or more,
  -- each with validators, a policy, settings and a new identifier of its own, whatever fails in them,
  -- empty the queue and leave a verified trail, and every request that was queued is from then on
  -- answered with neither 404 nor PENDING.
  pub Reached-drained :
      (carry_out : Json F → Json F) (g : Gateway F) (ts : List Ticket) (rs : List (Round F))
      → Reached sha256 classify execute carry_out g
      → length g.queue ≤ length rs
      → let after = work_rounds sha256 classify execute rs g in
        (after.queue ≡ [])
        × (verify_chain sha256 after.site.desk.rows ≡ verified)
        × All (λ job. IsAnswered job.request_id ts after.site.desk.rows) g.queue
  Reached-drained carry_out g ts rs reached enough =
      let sound = Reached-IsSound sha256 classify execute carry_out ne g reached in
      let (trail, empty, kept, decided) = work_rounds-IsDrained rs g.site g.queue enough sound in
      (empty, verify_chain-Chain sha256 _ trail.chain, All-IsAnswered ts _ g.queue decided)
