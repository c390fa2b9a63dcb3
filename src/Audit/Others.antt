-- ===== src/Audit/Others.antt =====
-- What `updateRecordAndRecalculate` (apps/api/src/audit/audit.service.ts) does to the row of another
-- request than the one that it updates.
use mini_sentinel.Prelude.{
  String, false, some, List, [], ◌∷◌, ◌≡◌, ◌≢◌, refl, sym, ◌∙◌, ap, subst, ◌==◌, eq_iff,
  Option-cases, Bool-cases, inl, inr, arith,
}
use mini_sentinel.Values.Runtime.{Runtime}
use mini_sentinel.Audit.Row.{Row}
use mini_sentinel.Audit.Store.{update, find_request}
use mini_sentinel.Audit.Service.{UpdateData, amend, update_record_and_recalculate}
use mini_sentinel.Audit.Append.{Fresh}
use mini_sentinel.Audit.Content.{bare, bare-update_record, find_request-bare}
use mini_sentinel.Audit.Distinct.{Distinct-bare, Distinct-update}
use mini_sentinel.Audit.Heal.Loop.{Distinct}

module _ {F : Type 0} where
  Fresh-find_request :
      (id request_id : String) (t : List (Row F)) (x : Row F)
      → Fresh id t
      → find_request request_id t ≡ some x
      → x.id ≢ id
  Fresh-find_request id request_id [] x h found = absurd (ground (arith, found))
  Fresh-find_request id request_id (r ∷ t) x (n, h) found =
      elim (Bool-cases (r.request_id == request_id)) [
        | inl e ↦ let first : r ≡ x = ground (arith, e, found) in subst (λ q. q.id ≢ id) first n
        | inr e ↦ Fresh-find_request id request_id t x h (ground (arith, e, found))
      ]

  -- The rows of two requests have two identifiers.
  find_request-apart :
      (request_id other : String) (t : List (Row F)) (x y : Row F)
      → (request_id == other) ≡ false
      → Distinct t
      → find_request request_id t ≡ some x
      → find_request other t ≡ some y
      → x.id ≢ y.id
  find_request-apart request_id other [] x y apart d fx fy = absurd (ground (arith, fx))
  find_request-apart request_id other (r ∷ t) x y apart (f, d) fx fy =
      elim (Bool-cases (r.request_id == request_id)) [
        | inl e ↦
            let first : r ≡ x = ground (arith, e, fx) in
            let another : (r.request_id == other) ≡ false =
              ap (λ q. q == other) (ground (arith, e, eq_iff r.request_id request_id)) ∙ apart in
            λ same.
              Fresh-find_request r.id other t y f (ground (arith, another, fy))
                (sym same ∙ ap (λ q. q.id) (sym first))
        | inr e ↦ elim (Bool-cases (r.request_id == other)) [
          | inl e' ↦
              let first : r ≡ y = ground (arith, e', fy) in
              λ same.
                Fresh-find_request r.id request_id t x f (ground (arith, e, fx))
                  (same ∙ ap (λ q. q.id) (sym first))
          | inr e' ↦
              find_request-apart request_id other t x y apart d (ground (arith, e, fx))
                (ground (arith, e', fy))
        ]
      ]

  find_request-amend_other :
      (other id : String) (u : UpdateData F) (t : List (Row F)) (y : Row F)
      → y.id ≢ id
      → find_request other t ≡ some y
      → find_request other (update id (amend u) t) ≡ some y
  unfolding update amend
  find_request-amend_other other id u [] y n found = absurd (ground (arith, found))
  find_request-amend_other other id u (r ∷ t) y n found =
      elim (Bool-cases (r.request_id == other)) [
        | inl e ↦
            let first : r ≡ y = ground (arith, e, found) in
            let same : (r.id == id) ≡ false =
              subst (λ q. (q.id == id) ≡ false) (sym first) (ground (arith, n, eq_iff y.id id)) in
            rw same (rw e (ap some first))
        | inr e ↦
            let later = find_request-amend_other other id u t y n (ground (arith, e, found)) in
            elim (Bool-cases (r.id == id)) [
              | inl named ↦ rw named (rw e later)
              | inr another ↦ rw another (rw e later)
            ]
      ]

module _ {F : Type 0} ⦃js : Runtime F⦄ (sha256 : String → String) where
  pub Distinct-update_record :
      (request_id : String) (u : UpdateData F) (t : List (Row F))
      → Distinct t
      → Distinct (update_record_and_recalculate sha256 request_id u t).0
  unfolding update_record_and_recalculate
  Distinct-update_record request_id u t d = elim (Option-cases (find_request request_id t)) [
    | inl none' ↦ rw (none', update_record_and_recalculate) d
    | inr (x, found) ↦
        Distinct-bare (update x.id (amend u) t) _ (bare-update_record sha256 request_id u t x found)
          (Distinct-update x.id u t d)
  ]

  -- Where the rows have distinct identifiers, an update changes the row of another request in its hashes
  -- at most.
  pub find_request-other :
      (request_id other : String) (u : UpdateData F) (t : List (Row F)) (y : Row F)
      → (request_id == other) ≡ false
      → Distinct t
      → find_request other t ≡ some y
      → (r : Row F) × (find_request other (update_record_and_recalculate sha256 request_id u t).0
          ≡ some r)
        × (bare r ≡ bare y)
  unfolding update_record_and_recalculate
  find_request-other request_id other u t y apart d found =
      elim (Option-cases (find_request request_id t)) [
        | inl none' ↦ rw (none', update_record_and_recalculate) (y, found, refl)
        | inr (x, here) ↦
            find_request-bare other (update x.id (amend u) t) _ y
              (bare-update_record sha256 request_id u t x here)
              (find_request-amend_other other x.id u t y
                (λ e. find_request-apart request_id other t x y apart d here found (sym e)) found)
      ]
