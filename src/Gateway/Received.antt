-- ===== src/Gateway/Received.antt =====
-- What `intercept` of apps/api/src/api/gateway.controller.ts leaves of a request that is recorded, and
-- what a poll for it is answered.
use mini_sentinel.Prelude.{
  String, false, none, some, List, [], ◌∷◌, ◌++◌, any, ◌≡◌, refl, ap, ◌==◌, eq_refl, arith, ◌^^◌,
}
use mini_sentinel.Values.Json.{Json, str, get}
use mini_sentinel.Values.Runtime.{Runtime}
use mini_sentinel.Types.{ParsedRequest}
use mini_sentinel.Audit.Row.{Row, own}
use mini_sentinel.Audit.Store.{find_request, find_latest}
use mini_sentinel.Audit.Service.{new_row, record_entry, verified, verify_chain}
use mini_sentinel.Audit.Verify.{Chain}
use mini_sentinel.Audit.Append.{Fresh, record_entry-verified}
use mini_sentinel.Audit.Content.{bare-record_entry, find_request-bare}
use mini_sentinel.Review.Tickets.{Ticket}
use mini_sentinel.Worker.Queue.{add_job}
use mini_sentinel.Gateway.Intercept.{
  Gateway, job_of, accepted, Making, pending_entry, intercept_parsed,
}
use mini_sentinel.Gateway.Status.{pending, get_status}

module _ {F : Type 0} where
  find_request-snoc :
      (request_id : String) (t : List (Row F)) (r : Row F)
      → any (λ q. q.request_id == request_id) t ≡ false
      → r.request_id ≡ request_id
      → find_request request_id (t ++ r ∷ []) ≡ some r
  find_request-snoc request_id [] r new same = ground (arith, same, eq_refl request_id)
  find_request-snoc request_id (q ∷ t) r new same =
      ground (arith, new, find_request-snoc request_id t r (ground (arith, new)) same)

module _ {F : Type 0} ⦃js : Runtime F⦄ (sha256 : String → String) where
  -- The interception of a request that no row has, with dates that can be printed, over a trail that is a
  -- chain: the trail is verified again, the job stands at the front of the queue, the answer is the 202
  -- with the identifier and the address to poll, and a poll is answered PENDING.
  pub intercept_parsed-pending :
      (making : Making) (raw : Json F) (request : ParsedRequest F) (g : Gateway F)
      (ts : List Ticket) (received timestamp : String)
      → Chain sha256 0 none g.site.desk.rows
      → any (λ r. r.request_id == request.id) g.site.desk.rows ≡ false
      → Fresh making.row_id g.site.desk.rows
      → js.iso_date (own raw "timestamp") ≡ some received
      → js.iso_date (some (str request.timestamp)) ≡ some timestamp
      → let (after, reply) = intercept_parsed sha256 making raw request g in
        (verify_chain sha256 after.site.desk.rows ≡ verified)
        × (after.queue ≡ add_job (job_of raw request) g.queue)
        × (reply ≡ accepted request.id ("/api/v1/status/" ^^ request.id))
        × (get_status request.id ts after.site.desk.rows ≡ pending)
  unfolding intercept_parsed get_status new_row get
  intercept_parsed-pending making raw request g ts received timestamp chain new fresh d1 d2 =
      let e = pending_entry making raw request in
      let rows = g.site.desk.rows in
      let (good, longer, (r, recorded, named, index)) =
        record_entry-verified sha256 e rows received timestamp chain new fresh d1 d2 in
      let row = new_row e received (find_latest rows) in
      let (q, here, same) =
        find_request-bare request.id (rows ++ row ∷ []) (record_entry sha256 e rows).0 row
          (bare-record_entry sha256 e rows received timestamp new fresh d1 d2)
          (find_request-snoc request.id rows row new refl) in
      let waiting : own q.decision_record "verdict" ≡ some (str "PENDING") =
        ap (λ x. own x.decision_record "verdict") same in
      rw recorded (good, refl, refl, ground (arith, here, waiting))
