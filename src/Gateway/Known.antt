-- ===== src/Gateway/Known.antt =====
-- The queued jobs of apps/api/src/common/queue and the rows of their requests, and what an interception
-- of apps/api/src/api/gateway.controller.ts does to them.
use mini_sentinel.Prelude.{
  String, true, some, List, [], ◌∷◌, ◌++◌, ◌≡◌, ◌∙◌, ap, ◌==◌, ◌||◌, false, eq_refl, any-append,
  All, Option-cases, Bool-cases, inl, inr, arith,
}
use mini_sentinel.Values.Json.{Json, str, get}
use mini_sentinel.Values.Runtime.{Runtime}
use mini_sentinel.Types.{ParsedRequest}
use mini_sentinel.Audit.Row.{Row, own}
use mini_sentinel.Audit.Store.{find_request, find_latest}
use mini_sentinel.Audit.Service.{Entry, new_row, record_entry}
use mini_sentinel.Audit.Append.{Fresh, record_entry_lem, record_entry_duplicate}
use mini_sentinel.Audit.Content.{bare-record_entry, has_row, has_row-bare}
use mini_sentinel.Audit.Trail.{IsTrail, record_entry-IsTrail, record_entry_undated}
use mini_sentinel.Worker.Queue.{add_job}
use mini_sentinel.Gateway.Intercept.{Job, Gateway, Making, pending_entry, intercept_parsed}

module _ {F : Type 0} where
  pub has_row-find_request :
      (request_id : String) (t : List (Row F))
      → has_row request_id t ≡ true
      → (x : Row F) × (find_request request_id t ≡ some x)
  has_row-find_request request_id [] h = absurd (ground (arith, h))
  has_row-find_request request_id (r ∷ t) h = elim (Bool-cases (r.request_id == request_id)) [
    | inl e ↦ (r, ground (arith, e))
    | inr e ↦
        let (x, found) = has_row-find_request request_id t (ground (arith, e, h)) in
        (x, ground (arith, e, found))
  ]

module _ {F : Type 0} ⦃js : Runtime F⦄ where
  -- The job's request has a row, and a date that can be printed.
  abbrev pub IsKnown : List (Row F) → Job F → Type 0
  IsKnown rows job =
      (has_row job.request_id rows ≡ true)
      × ((date : String) × (js.iso_date (some (str job.parsed_request.timestamp)) ≡ some date))

  pub IsKnown-longer :
      (rows rows' : List (Row F)) (q : List (Job F))
      → ((id : String) → has_row id rows ≡ true → has_row id rows' ≡ true)
      → All (IsKnown rows) q
      → All (IsKnown rows') q
  IsKnown-longer rows rows' [] longer h = tt
  IsKnown-longer rows rows' (job ∷ q) longer ((row, dated), h) =
      ((longer job.request_id row, dated), IsKnown-longer rows rows' q longer h)

  pub IsKnown-find_request :
      (rows : List (Row F)) (q : List (Job F))
      → All (IsKnown rows) q
      → All (λ job. (x : Row F) × (find_request job.request_id rows ≡ some x)) q
  IsKnown-find_request rows [] h = tt
  IsKnown-find_request rows (job ∷ q) ((row, dated), h) =
      (has_row-find_request job.request_id rows row, IsKnown-find_request rows q h)

module _ {F : Type 0} ⦃js : Runtime F⦄ (sha256 : String → String) where
  -- The trail is one, and the request of every queued job is known.
  pub record IsSound (g : Gateway F) : Type 0 where
    pub trail : IsTrail sha256 g.site.desk.rows
    pub known : All (IsKnown g.site.desk.rows) g.queue

  has_row-record_entry :
      (e : Entry F) (t : List (Row F)) (received timestamp id : String)
      → has_row e.request_id t ≡ false
      → Fresh e.id t
      → js.iso_date (own e.raw_request "timestamp") ≡ some received
      → js.iso_date (own e.parsed_request "timestamp") ≡ some timestamp
      → has_row id (record_entry sha256 e t).0 ≡ has_row id t || e.request_id == id
  unfolding new_row
  has_row-record_entry e t received timestamp id new fresh d1 d2 =
      let row = new_row e received (find_latest t) in
      has_row-bare id (t ++ row ∷ []) _
        (bare-record_entry sha256 e t received timestamp new fresh d1 d2)
      ∙ any-append (λ r. r.request_id == id) t (row ∷ [])
      ∙ ground arith

  pub intercept_parsed-IsSound :
      (making : Making) (raw : Json F) (request : ParsedRequest F) (timestamp : String)
      (g : Gateway F)
      → Fresh making.row_id g.site.desk.rows
      → js.iso_date (some (str request.timestamp)) ≡ some timestamp
      → IsSound g
      → IsSound (intercept_parsed sha256 making raw request g).0
  unfolding intercept_parsed get add_job
  intercept_parsed-IsSound making raw request timestamp g fresh dated sound =
      let e = pending_entry making raw request in
      let rows = g.site.desk.rows in
      let trail = record_entry-IsTrail sha256 e rows timestamp sound.trail fresh dated in
      elim (Bool-cases (has_row request.id rows)) [
        | inl old ↦
            rw (record_entry_duplicate sha256 e rows old)
              (record { trail = sound.trail; known = sound.known })
        | inr new ↦ elim (Option-cases (js.iso_date (own raw "timestamp"))) [
          | inl bad ↦
              rw (record_entry_undated sha256 e rows bad)
                (record { trail = sound.trail; known = sound.known })
          | inr (received, good) ↦
              let row : (id : String)
                  → has_row id (record_entry sha256 e rows).0
                    ≡ has_row id rows || request.id == id =
                λ id. has_row-record_entry e rows received timestamp id new fresh good dated in
              let recorded =
                ap (λ p. p.1)
                  (record_entry_lem sha256 e rows received timestamp new fresh good dated) in
              rw recorded (record {
                trail = trail;
                known = (
                  (row request.id ∙ ground (arith, eq_refl request.id), (timestamp, dated)),
                  IsKnown-longer rows _ g.queue (λ id h. row id ∙ ground (arith, h)) sound.known,
                );
              })
        ]
      ]
