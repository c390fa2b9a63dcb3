-- ===== src/Audit/Trail.antt =====
-- The trail of apps/api/src/audit/audit.service.ts as the services find it: a chain whose rows have
-- distinct identifiers. An update of a row keeps it so.
use mini_sentinel.Prelude.{
  ℕ, suc, String, Bool, Option, none, some, List, [], ◌∷◌, ◌++◌, find?, length, ◌≡◌, refl, sym, ◌∙◌,
  ap, subst, ◌==◌, eq_iff, All, Option-cases, Bool-cases, inl, inr, arith,
}
use mini_sentinel.Values.Runtime.{Runtime, stringify}
use mini_sentinel.Audit.Row.{Row, own, hash_input, content_str}
use mini_sentinel.Audit.Store.{update, find_request, find_latest}
use mini_sentinel.Audit.Service.{
  done, internal_error, UpdateData, Entry, amend, new_row, record_entry,
  update_record_and_recalculate,
}
use mini_sentinel.Audit.Verify.{Chain, Chain-Indexed, Chain-split}
use mini_sentinel.Audit.Append.{Fresh, record_entry_duplicate, record_entry-Chain}
use mini_sentinel.Audit.Content.{bare-update_record, bare-record_entry, has_row}
use mini_sentinel.Audit.Distinct.{Distinct-bare, Distinct-update, Distinct-snoc}
use mini_sentinel.Audit.Heal.Loop.{Distinct, IsReadable}
use mini_sentinel.Audit.Heal.Prefix.{NonEmpty}
use mini_sentinel.Audit.Heal.Update.{update-Chain}

module _ {F : Type 0} ⦃js : Runtime F⦄ (sha256 : String → String) where
  pub record IsTrail (t : List (Row F)) : Type 0 where
    pub chain : Chain sha256 0 none t
    pub distinct : Distinct t

module _ {F : Type 0} where
  find?-split :
      (p : Row F → Bool) (t : List (Row F)) (x : Row F)
      → find? p t ≡ some x
      → (before : List (Row F)) × (after : List (Row F)) × (t ≡ before ++ x ∷ after)
  find?-split p [] x h = absurd (ground (arith, h))
  find?-split p (r ∷ t) x h = elim (Bool-cases (p r)) [
    | inl e ↦ let first : r ≡ x = ground (arith, e, h) in ([], t, ap (λ q. q ∷ t) first)
    | inr e ↦
        let (before, after, split) = find?-split p t x (ground (arith, e, h)) in
        (r ∷ before, after, ap (λ u. r ∷ u) split)
  ]

  find_request-named :
      (request_id : String) (t : List (Row F)) (x : Row F)
      → find_request request_id t ≡ some x
      → x.request_id ≡ request_id
  find_request-named request_id [] x h = absurd (ground (arith, h))
  find_request-named request_id (r ∷ t) x h = elim (Bool-cases (r.request_id == request_id)) [
    | inl e ↦
        let first : r ≡ x = ground (arith, e, h) in
        ap (λ q. q.request_id) (sym first) ∙ ground (arith, e, eq_iff r.request_id request_id)
    | inr e ↦ find_request-named request_id t x (ground (arith, e, h))
  ]

module _ {F : Type 0} ⦃js : Runtime F⦄ where
  -- The date of the parsed request can be printed.
  abbrev pub IsDated : Row F → Type 0
  IsDated r = (d : String) × (js.iso_date (own r.parsed_request "timestamp") ≡ some d)

  IsDated-IsReadable : (r : Row F) → IsDated r → IsReadable r
  unfolding content_str
  IsDated-IsReadable r (d, h) = (stringify (hash_input r d), rw h refl)

  pub IsReadable-IsDated : (r : Row F) → IsReadable r → IsDated r
  unfolding content_str
  IsReadable-IsDated r (content, h) =
      elim (Option-cases (js.iso_date (own r.parsed_request "timestamp"))) [
        | inl none' ↦ absurd (ground (arith, none', h))
        | inr (d, e) ↦ (d, e)
      ]

module _ {F : Type 0} ⦃js : Runtime F⦄ (sha256 : String → String) where
  Chain-IsReadable :
      (k : ℕ) (p : Option String) (t : List (Row F)) → Chain sha256 k p t → All IsReadable t
  Chain-IsReadable k p [] h = tt
  Chain-IsReadable k p (r ∷ t) (l, h) = ((l.content, l.readable), Chain-IsReadable (suc k) _ t h)

  find_request-IsReadable :
      (request_id : String) (t : List (Row F)) (x : Row F)
      → find_request request_id t ≡ some x
      → All IsReadable t
      → IsReadable x
  find_request-IsReadable request_id [] x found h = absurd (ground (arith, found))
  find_request-IsReadable request_id (r ∷ t) x found (hr, h) =
      elim (Bool-cases (r.request_id == request_id)) [
        | inl e ↦ let first : r ≡ x = ground (arith, e, found) in subst IsReadable first hr
        | inr e ↦ find_request-IsReadable request_id t x (ground (arith, e, found)) h
      ]

  -- The row of a request in a trail has a date that can be printed.
  pub IsTrail-IsDated :
      (request_id : String) (t : List (Row F)) (x : Row F)
      → IsTrail sha256 t
      → find_request request_id t ≡ some x
      → IsDated x
  IsTrail-IsDated request_id t x trail found =
      IsReadable-IsDated x
        (find_request-IsReadable request_id t x found (Chain-IsReadable 0 none t trail.chain))

  -- An update of a request that has a row keeps a trail, where the amended row has a date that can be
  -- printed, and returns a row.
  pub update-IsTrail :
      NonEmpty sha256
      → (request_id : String) (u : UpdateData F) (t : List (Row F)) (x : Row F) → IsTrail sha256 t
      → find_request request_id t ≡ some x
      → IsDated (amend u x)
      → IsTrail sha256 (update_record_and_recalculate sha256 request_id u t).0
        × ((r : Row F) × ((update_record_and_recalculate sha256 request_id u t).1 ≡ done r))
  update-IsTrail ne request_id u t x trail found dated =
      let (before, after, split) = find?-split (λ r. r.request_id == request_id) t x found in
      let named = find_request-named request_id t x found in
      let whole = subst (λ v. Chain sha256 0 none v) split trail.chain in
      let (c, later) =
        Chain-split sha256 0 (length before) none before (x ∷ after) (omega arith) whole in
      let readable : All IsReadable (amend u x ∷ after) =
        (IsDated-IsReadable (amend u x) dated, (Chain-IsReadable _ _ (x ∷ after) later).1) in
      let found' : find_request x.request_id (before ++ x ∷ after) ≡ some x =
        subst (λ v. find_request x.request_id v ≡ some x) split
          (subst (λ i. find_request i t ≡ some x) (sym named) found) in
      let (chain, answer) =
        update-Chain sha256 ne u before after x found' c
          (Chain-Indexed sha256 0 none (before ++ x ∷ after) whole)
          (subst Distinct split trail.distinct) readable in
      let same : update_record_and_recalculate sha256 x.request_id u (before ++ x ∷ after)
          ≡ update_record_and_recalculate sha256 request_id u t =
        ap (λ v. update_record_and_recalculate sha256 x.request_id u v) (sym split)
        ∙ ap (λ i. update_record_and_recalculate sha256 i u t) named in
      (
        record {
          chain = subst (λ p. Chain sha256 0 none p.0) same chain;
          distinct =
              Distinct-bare (update x.id (amend u) t) _
                (bare-update_record sha256 request_id u t x found)
                (Distinct-update x.id u t trail.distinct);
        },
        subst (λ p. (r : Row F) × (p.1 ≡ done r)) same answer,
      )

  -- An update that keeps the parsed request keeps a trail, also where no row has the request.
  pub kept-IsTrail :
      NonEmpty sha256
      → (request_id : String) (u : UpdateData F) (t : List (Row F)) → u.parsed_request ≡ none
      → IsTrail sha256 t
      → IsTrail sha256 (update_record_and_recalculate sha256 request_id u t).0
  unfolding amend update_record_and_recalculate
  kept-IsTrail ne request_id u t kept trail = elim (Option-cases (find_request request_id t)) [
    | inl none' ↦ rw (none', update_record_and_recalculate) trail
    | inr (x, found) ↦
        let (date, dated) = IsTrail-IsDated request_id t x trail found in
        (update-IsTrail ne request_id u t x trail found (date, ground (arith, kept, dated))).0
  ]

  -- A record of a request whose raw date cannot be printed leaves the table as it was.
  pub record_entry_undated :
      (e : Entry F) (t : List (Row F))
      → js.iso_date (own e.raw_request "timestamp") ≡ none
      → record_entry sha256 e t ≡ (t, internal_error "Failed to append to audit trail")
  unfolding record_entry
  record_entry_undated e t bad = rw bad refl

  -- A record of a request with a fresh identifier keeps a trail, where the date of the parsed request can
  -- be printed.
  pub record_entry-IsTrail :
      (e : Entry F) (t : List (Row F)) (timestamp : String)
      → IsTrail sha256 t
      → Fresh e.id t
      → js.iso_date (own e.parsed_request "timestamp") ≡ some timestamp
      → IsTrail sha256 (record_entry sha256 e t).0
  unfolding new_row
  record_entry-IsTrail e t timestamp trail fresh dated =
      elim (Bool-cases (has_row e.request_id t)) [
        | inl old ↦ rw (record_entry_duplicate sha256 e t old) trail
        | inr new ↦ elim (Option-cases (js.iso_date (own e.raw_request "timestamp"))) [
          | inl bad ↦ rw (record_entry_undated e t bad) trail
          | inr (received, good) ↦ record {
            chain =
                record_entry-Chain sha256 e t received timestamp trail.chain new fresh good dated;
            distinct =
                Distinct-bare (t ++ new_row e received (find_latest t) ∷ []) _
                  (bare-record_entry sha256 e t received timestamp new fresh good dated)
                  (Distinct-snoc t _ trail.distinct fresh);
          }
        ]
      ]
