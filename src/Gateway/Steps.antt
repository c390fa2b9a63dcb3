-- ===== src/Gateway/Steps.antt =====
-- The gateway of apps/api/src as a system of steps: the interceptions of
-- apps/api/src/api/gateway.controller.ts, the rounds of the worker of apps/api/src/common/queue and the
-- submissions of apps/api/src/workflow/review.service.ts over one audit table and one queue. A step is
-- one whole call: two calls that overlap are not modelled, nor is the reset of the database.
use mini_sentinel.Prelude.{List, String, Option, some, [], ◌≡◌, ◌∷◌}
use mini_sentinel.Values.Json.{Json, str}
use mini_sentinel.Values.Runtime.{Runtime}
use mini_sentinel.Types.{ParsedRequest}
use mini_sentinel.Decision.Scan.{Policy}
use mini_sentinel.Audit.Append.{Fresh}
use mini_sentinel.Pipeline.Run.{Validators}
use mini_sentinel.Review.Tickets.{ReviewDecision, submit_decision}
use mini_sentinel.Worker.Run.{Site, Occasion, run_job}
use mini_sentinel.Worker.Queue.{poll}
use mini_sentinel.Gateway.Intercept.{Job, Gateway, Making, intercept_parsed}

module _ {F : Type 0} ⦃js : Runtime F⦄ (sha256 : String → String) (classify : String → String)
    (execute : ParsedRequest F → Json F) where
  abbrev pub work_job : Validators F → Policy F → Occasion F → Job F → Site F → Site F
  work_job validators policy occasion job site =
      run_job sha256 classify execute validators policy occasion job.request_id job.parsed_request
        site

  -- One round of the loop of the worker, with the validators, the policy and the settings of that time.
  unfoldable pub work : Validators F → Policy F → Occasion F → Gateway F → Gateway F
  unfolding poll run_job
  work validators policy occasion g =
      let (queue, site) = poll (work_job validators policy occasion) (g.queue, g.site) in
      record { site = site; queue = queue }

-- What a round of the loop finds: the validators and the policy of that time, and what the settings, the
-- clock and the database give to its job.
pub record Round (F : Type 0) : Type 0 where
  pub validators : Validators F
  pub policy : Policy F
  pub occasion : Occasion F

module _ {F : Type 0} ⦃js : Runtime F⦄ (sha256 : String → String) (classify : String → String)
    (execute : ParsedRequest F → Json F) where
  -- Rounds of the loop, one after the other.
  unfoldable pub work_rounds : List (Round F) → Gateway F → Gateway F
  unfolding work
  work_rounds [] g = g
  work_rounds (r ∷ rs) g =
      work_rounds rs (work sha256 classify execute r.validators r.policy r.occasion g)

module _ {F : Type 0} ⦃js : Runtime F⦄ (sha256 : String → String)
    (carry_out : Json F → Json F) where
  -- One submission of a reviewer.
  unfoldable pub decide_ticket :
      String → String → String → ReviewDecision → Option String → Gateway F → Gateway F
  unfolding submit_decision
  decide_ticket now id reviewer d notes g =
      let (desk, answer) = submit_decision sha256 carry_out now id reviewer d notes g.site.desk in
      record g { site = record g.site { desk = desk } }

module _ {F : Type 0} ⦃js : Runtime F⦄ (sha256 : String → String) (classify : String → String)
    (execute : ParsedRequest F → Json F) (carry_out : Json F → Json F) where
  -- The states after any steps in any order from an empty table and an empty queue. A new row has an
  -- identifier that no row has, and an intercepted request a date that can be printed.
  pub data Reached : Gateway F → Type 0 where
    started : (site : Site F) → site.desk.rows ≡ [] → Reached (record { site = site; queue = [] })
    intercepted :
        (making : Making) (raw : Json F) (request : ParsedRequest F) (timestamp : String)
        (g : Gateway F)
        → Fresh making.row_id g.site.desk.rows
        → js.iso_date (some (str request.timestamp)) ≡ some timestamp
        → Reached g
        → Reached (intercept_parsed sha256 making raw request g).0
    worked :
        (validators : Validators F) (policy : Policy F) (occasion : Occasion F) (g : Gateway F)
        → Reached g
        → Reached (work sha256 classify execute validators policy occasion g)
    reviewed :
        (now id reviewer : String) (d : ReviewDecision) (notes : Option String) (g : Gateway F)
        → Reached g
        → Reached (decide_ticket sha256 carry_out now id reviewer d notes g)
