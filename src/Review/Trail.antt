-- ===== src/Review/Trail.antt =====
-- What `submitDecision` of apps/api/src/workflow/review.service.ts does to the audit trail and to the
-- ticket.
use mini_sentinel.Prelude.{String, true, Option, none, some, List, ◌∷◌, ◌++◌, ◌≡◌, arith, All}
use mini_sentinel.Values.Json.{Json}
use mini_sentinel.Values.Runtime.{Runtime}
use mini_sentinel.Audit.Row.{Row}
use mini_sentinel.Audit.Store.{find_id, find_request}
use mini_sentinel.Audit.Service.{amend, verified, verify_chain}
use mini_sentinel.Audit.Verify.{Indexed, Chain}
use mini_sentinel.Audit.Heal.Loop.{Distinct, IsReadable}
use mini_sentinel.Audit.Heal.Prefix.{NonEmpty}
use mini_sentinel.Audit.Heal.Update.{update-verified}
use mini_sentinel.Review.Tickets.{
  ReviewDecision, Ticket, Desk, submitted, is_open, find_ticket, review, review_data, execution,
  process, submit_decision,
}

module _ {F : Type 0} ⦃js : Runtime F⦄ (sha256 : String → String) (execute : Json F → Json F) where
  -- A submission for an open ticket, whose row stands in a table with consecutive indices and distinct
  -- identifiers, after rows that form a chain, returns the reviewed ticket and leaves a verified trail,
  -- provided that the dates of the amended row and of the later ones can be printed.
  pub submit_decision-verified :
      NonEmpty sha256
      → (now id reviewer : String) (d : ReviewDecision) (notes : Option String) (desk : Desk F)
        (t : Ticket) (before after : List (Row F)) (x : Row F)
      → find_ticket id desk.tickets ≡ some t
      → is_open t.status ≡ true
      → find_id t.audit_record_id desk.rows ≡ some x
      → t.request_id ≡ x.request_id
      → desk.rows ≡ before ++ x ∷ after
      → find_request x.request_id (before ++ x ∷ after) ≡ some x
      → Chain sha256 0 none before
      → Indexed 0 (before ++ x ∷ after)
      → Distinct (before ++ x ∷ after)
      → All IsReadable (amend (review_data execute now t x reviewer d notes) x ∷ after)
      → (verify_chain sha256 (submit_decision sha256 execute now id reviewer d notes desk).0.rows
          ≡ verified)
        × ((submit_decision sha256 execute now id reviewer d notes desk).1
            ≡ submitted (review reviewer d notes t) (execution execute d x))
  unfolding submit_decision process
  submit_decision-verified ne now id reviewer d notes desk t before after x found unprocessed
        present same split unique c i distinct readable =
      let u = review_data execute now t x reviewer d notes in
      let (good, (r, answered)) =
        update-verified sha256 ne u before after x unique c i distinct readable in
      ground (arith, found, unprocessed, present, split, same, good, answered)
