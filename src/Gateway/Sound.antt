-- ===== src/Gateway/Sound.antt =====
-- What holds in every state that the steps of `Gateway.Steps` reach.
use mini_sentinel.Prelude.{
  String, Option, some, List, [], ◌∷◌, ◌++◌, ◌≡◌, refl, ◌∙◌, All, All-split, Option-cases,
  Bool-cases, inl, inr,
}
use mini_sentinel.Values.Json.{Json}
use mini_sentinel.Values.Runtime.{Runtime}
use mini_sentinel.Types.{ParsedRequest}
use mini_sentinel.Decision.Scan.{Policy}
use mini_sentinel.Audit.Row.{Row}
use mini_sentinel.Audit.Store.{find_request, find_id}
use mini_sentinel.Audit.Service.{verified, verify_chain}
use mini_sentinel.Audit.Verify.{verify_chain-Chain}
use mini_sentinel.Audit.Content.{has_row, has_row-update}
use mini_sentinel.Audit.Heal.Prefix.{NonEmpty}
use mini_sentinel.Audit.Trail.{IsTrail, kept-IsTrail}
use mini_sentinel.Pipeline.Run.{Validators}
use mini_sentinel.Review.Tickets.{
  ReviewDecision, Desk, find_ticket, is_open, review_data, process, submit_decision,
}
use mini_sentinel.Worker.Run.{Site, Occasion}
use mini_sentinel.Worker.Queue.{brpop, poll, poll-snoc, snoc-cases}
use mini_sentinel.Worker.Chained.{run_job-IsTrail}
use mini_sentinel.Worker.Rows.{run_job-has_row}
use mini_sentinel.Gateway.Intercept.{Job, Gateway}
use mini_sentinel.Gateway.Steps.{
  work_job, work, decide_ticket, Reached, started, intercepted, worked, reviewed,
}
use mini_sentinel.Gateway.Known.{
  has_row-find_request, IsKnown, IsKnown-longer, IsKnown-find_request, IsSound,
  intercept_parsed-IsSound,
}

module _ {F : Type 0} ⦃js : Runtime F⦄ (sha256 : String → String) where
  -- A submission keeps the trail, and the rows of the requests.
  submit_decision-kept :
      (carry_out : Json F → Json F) (now id reviewer : String) (d : ReviewDecision)
      (notes : Option String) (desk : Desk F)
      → NonEmpty sha256
      → IsTrail sha256 desk.rows
      → let after = (submit_decision sha256 carry_out now id reviewer d notes desk).0 in
        IsTrail sha256 after.rows
        × ((other : String) → has_row other after.rows ≡ has_row other desk.rows)
  unfolding submit_decision process
  submit_decision-kept carry_out now id reviewer d notes desk ne trail =
      elim (Option-cases (find_ticket id desk.tickets)) [
        | inl none' ↦ rw (none', submit_decision) (trail, λ other. refl)
        | inr (t, found) ↦ elim (Bool-cases (is_open t.status)) [
          | inr shut ↦ rw (found, shut, submit_decision) (trail, λ other. refl)
          | inl unreviewed ↦ elim (Option-cases (find_id t.audit_record_id desk.rows)) [
            | inl gone ↦ rw (found, unreviewed, gone, submit_decision) (trail, λ other. refl)
            | inr (x, present) ↦
                let u = review_data carry_out now t x reviewer d notes in
                rw (found, unreviewed, present, submit_decision)
                  (
                    kept-IsTrail sha256 ne t.request_id u desk.rows (unfold review_data in refl)
                        trail,
                    λ other. has_row-update sha256 other t.request_id u desk.rows,
                  )
          ]
        ]
      ]

module _ {F : Type 0} ⦃js : Runtime F⦄ (sha256 : String → String) (classify : String → String)
    (execute : ParsedRequest F → Json F) (ne : NonEmpty sha256) where
  pub work_job-IsSound :
      (validators : Validators F) (policy : Policy F) (occasion : Occasion F) (site : Site F)
      (q : List (Job F)) (job : Job F)
      → IsSound sha256 (record { site = site; queue = q ++ job ∷ [] })
      → IsSound sha256 (record {
        site = work_job sha256 classify execute validators policy occasion job site;
        queue = q;
      })
  work_job-IsSound validators policy occasion site q job sound =
      let (before, ((row, (date, dated)), rest)) =
        All-split (IsKnown site.desk.rows) q (job ∷ []) sound.known in
      let (x, found) = has_row-find_request job.request_id site.desk.rows row in
      record {
        trail =
            (run_job-IsTrail sha256 classify execute validators policy ne occasion job.request_id
              date job.parsed_request site x sound.trail found dated).0;
        known =
            IsKnown-longer site.desk.rows _ q
              (λ id h.
                run_job-has_row sha256 classify execute validators policy occasion job.request_id
                  job.parsed_request site id
                ∙ h)
              before;
      }

  work-IsSound :
      (validators : Validators F) (policy : Policy F) (occasion : Occasion F) (site : Site F)
      (queue : List (Job F))
      → IsSound sha256 (record { site = site; queue = queue })
      → IsSound sha256 (
          work sha256 classify execute validators policy occasion
            (record { site = site; queue = queue }))
  unfolding work poll brpop
  work-IsSound validators policy occasion site queue sound = elim (snoc-cases queue) [
    | inl e ↦ rw e (rw e at sound)
    | inr (q, job, e) ↦
        rw (e, poll-snoc (work_job sha256 classify execute validators policy occasion) q job site)
          (work_job-IsSound validators policy occasion site q job (rw e at sound))
  ]

module _ {F : Type 0} ⦃js : Runtime F⦄ (sha256 : String → String) (classify : String → String)
    (execute : ParsedRequest F → Json F) (carry_out : Json F → Json F) (ne : NonEmpty sha256) where
  pub Reached-IsSound :
      (g : Gateway F) → Reached sha256 classify execute carry_out g → IsSound sha256 g
  unfolding decide_ticket
  Reached-IsSound _ (started site empty) = record {
    trail = rw empty (record { chain = tt; distinct = tt });
    known = tt;
  }
  Reached-IsSound _ (intercepted making raw request timestamp g fresh dated reached) =
      intercept_parsed-IsSound sha256 making raw request timestamp g fresh dated
        (Reached-IsSound g reached)
  Reached-IsSound _ (worked validators policy occasion g reached) =
      work-IsSound sha256 classify execute ne validators policy occasion g.site g.queue
        (Reached-IsSound g reached)
  Reached-IsSound _ (reviewed now id reviewer d notes g reached) =
      let sound = Reached-IsSound g reached in
      let (trail, rows) =
        submit_decision-kept sha256 carry_out now id reviewer d notes g.site.desk ne sound.trail in
      record {
        trail = trail;
        known = IsKnown-longer g.site.desk.rows _ g.queue (λ other h. rows other ∙ h) sound.known;
      }

  -- Whatever was intercepted, worked off and reviewed before, in whatever order, and whatever failed on
  -- the way: the trail is verified, and every job in the queue has the row of its request there.
  pub Reached-verified :
      (g : Gateway F)
      → Reached sha256 classify execute carry_out g
      → (verify_chain sha256 g.site.desk.rows ≡ verified)
        × All (λ job. (x : Row F) × (find_request job.request_id g.site.desk.rows ≡ some x)) g.queue
  Reached-verified g reached =
      let sound = Reached-IsSound g reached in
      (
        verify_chain-Chain sha256 g.site.desk.rows sound.trail.chain,
        IsKnown-find_request g.site.desk.rows g.queue sound.known,
      )
