-- ===== src/Review/Once.antt =====
-- That the request of a ticket of apps/api/src/workflow/review.service.ts is executed at most once, in
-- any sequence of submissions.
use mini_sentinel.Prelude.{
  ℕ, ◌+◌, ◌≤◌, String, Bool, true, false, Option, none, some, List, [], ◌∷◌, filter, filter-append,
  length, length-append, if◌then◌else◌, ◌==◌, ◌≡◌, refl, eq_iff, arith, Option-cases, Bool-cases,
  inl, inr,
}
use mini_sentinel.Values.Json.{Json}
use mini_sentinel.Values.Runtime.{Runtime}
use mini_sentinel.Audit.Row.{Row}
use mini_sentinel.Audit.Store.{find_id}
use mini_sentinel.Review.Tickets.{
  ReviewDecision, approve, reject, Ticket, Execution, of_job, of_ticket, Desk, Submitted, is_open,
  find_ticket, review, update_ticket, log_execution, process, submit_decision,
}

-- A call of `submitDecision`.
pub record Submission : Type 0 where
  pub now : String
  pub id : String
  pub reviewer : String
  pub decision : ReviewDecision
  pub notes : Option String

module _ {F : Type 0} where
  abbrev is_of : String → Execution F → Bool
  is_of id (of_job request) = false
  is_of id (of_ticket i request) = i == id

  -- How often the request of the ticket was handed to the executor.
  abbrev pub count : String → List (Execution F) → ℕ
  count id log = length (filter (is_of id) log)

-- The executions that a ticket may still have: one while it is open.
abbrev left_of : Option Ticket → ℕ
left_of none = 0
left_of (some t) = if is_open t.status then 1 else 0

abbrev left : String → List Ticket → ℕ
left id ts = left_of (find_ticket id ts)

left-le : (id : String) (ts : List Ticket) → left id ts ≤ 1
left-le id ts = ground arith

find_ticket-id :
    (id : String) (ts : List Ticket) (t : Ticket) → find_ticket id ts ≡ some t → t.id ≡ id
find_ticket-id id [] t h = absurd (ground arith)
find_ticket-id id (u ∷ ts) t h = elim (Bool-cases (u.id == id)) [
  | inl same ↦ ground (arith, h, eq_iff u.id id)
  | inr other ↦ find_ticket-id id ts t (ground (arith, h, other))
]

module _ (reviewer : String) (d : ReviewDecision) (notes : Option String) where
  left-update_other :
      (i id : String) (ts : List Ticket)
      → (i == id) ≡ false
      → left id (update_ticket i (review reviewer d notes) ts) ≡ left id ts
  unfolding update_ticket
  left-update_other i id [] h = refl
  left-update_other i id (t ∷ ts) h =
      ground (arith, h, left-update_other i id ts h, eq_iff t.id i, eq_iff i id, eq_iff t.id id)

  left-update_same :
      (id : String) (ts : List Ticket) → left id (update_ticket id (review reviewer d notes) ts) ≡ 0
  unfolding update_ticket
  left-update_same id [] = refl
  left-update_same id (t ∷ ts) = ground (arith, left-update_same id ts)

module _ {F : Type 0} where
  count-log_execution :
      (id i : String) (d : ReviewDecision) (row : Row F) (log : List (Execution F))
      → count id (log_execution d i row log) ≤ count id log + (if i == id then 1 else 0)
  count-log_execution id i approve row log =
      let entry = of_ticket i row.parsed_request in
      ground (
        arith,
        filter-append (is_of id) log (entry ∷ []),
        length-append (filter (is_of id) log) (filter (is_of id) (entry ∷ [])),
      )
  count-log_execution id i reject row log = ground arith

module _ {F : Type 0} ⦃js : Runtime F⦄ (sha256 : String → String) (execute : Json F → Json F) where
  abbrev pub submit : Submission → Desk F → Desk F × Submitted F
  submit s desk = submit_decision sha256 execute s.now s.id s.reviewer s.decision s.notes desk

  -- Submissions, one after the other.
  unfoldable pub submit_all : List Submission → Desk F → Desk F
  submit_all [] desk = desk
  submit_all (s ∷ ss) desk = submit_all ss (submit s desk).0

  process_step :
      (id : String) (s : Submission) (t : Ticket) (row : Row F) (desk : Desk F)
      → find_ticket s.id desk.tickets ≡ some t
      → is_open t.status ≡ true
      → (let after = (process sha256 execute s.now t row s.reviewer s.decision s.notes desk).0 in
          count id after.executed + left id after.tickets
          ≤ count id desk.executed + left id desk.tickets)
  unfolding process
  process_step id s t row desk found unprocessed =
      let same : t.id ≡ s.id = find_ticket-id s.id desk.tickets t found in
      let logged = count-log_execution id t.id s.decision row desk.executed in
      elim (Bool-cases (t.id == id)) [
        | inl this ↦
            let it : t.id ≡ id = (eq_iff t.id id).0 this in
            let spent = left-update_same s.reviewer s.decision s.notes id desk.tickets in
            ground (arith, logged, this, spent, it, same, found, unprocessed)
        | inr other ↦
            let kept = left-update_other s.reviewer s.decision s.notes t.id id desk.tickets other in
            ground (arith, logged, other, kept)
      ]

  -- What a ticket has used and what it has left never grows together.
  submit_step :
      (id : String) (s : Submission) (desk : Desk F)
      → count id (submit s desk).0.executed + left id (submit s desk).0.tickets
        ≤ count id desk.executed + left id desk.tickets
  unfolding submit_decision
  submit_step id s desk = elim (Option-cases (find_ticket s.id desk.tickets)) [
    | inl no_ticket ↦ ground (arith, no_ticket)
    | inr (t, found) ↦ elim (Bool-cases (is_open t.status)) [
      | inr processed ↦ ground (arith, found, processed)
      | inl unprocessed ↦ elim (Option-cases (find_id t.audit_record_id desk.rows)) [
        | inl no_row ↦ ground (arith, found, unprocessed, no_row)
        | inr (row, present) ↦
            ground
              (arith, found, unprocessed, present, process_step id s t row desk found unprocessed)
      ]
    ]
  ]

  submit_all_step :
      (id : String) (ss : List Submission) (desk : Desk F)
      → count id (submit_all ss desk).executed + left id (submit_all ss desk).tickets
        ≤ count id desk.executed + left id desk.tickets
  unfolding submit_all
  submit_all_step id [] desk = omega arith
  submit_all_step id (s ∷ ss) desk =
      omega (arith, submit_step id s desk, submit_all_step id ss (submit s desk).0)

  -- In any sequence of submissions, for this ticket and for others, approving or rejecting, by any
  -- reviewers, the request of a ticket is handed to the executor at most once more.
  pub submit_all-once :
      (id : String) (ss : List Submission) (desk : Desk F)
      → count id (submit_all ss desk).executed ≤ count id desk.executed + 1
  submit_all-once id ss desk = ground (arith, submit_all_step id ss desk, left-le id desk.tickets)
