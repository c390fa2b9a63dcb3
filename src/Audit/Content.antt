-- ===== src/Audit/Content.antt =====
-- What `updateRecordAndRecalculate` (apps/api/src/audit/audit.service.ts) does to the content of the
-- rows, their hashes aside.
use mini_sentinel.Prelude.{
  String, Bool, true, false, Option, none, some, List, [], ◌∷◌, ◌≡◌, refl, sym, ◌∙◌, ap, map, any,
  any-map, ◌++◌, map-append, ◌==◌, eq_refl, Bool-cases, Option-cases, inl, inr, arith,
}
use mini_sentinel.Values.Runtime.{Runtime}
use mini_sentinel.Audit.Row.{Row, own, content_str, row_hash}
use mini_sentinel.Audit.Append.{Fresh, record_entry_lem}
use mini_sentinel.Audit.Store.{
  update, find_hash, find_request, find_latest, from_index, order_by_index,
}
use mini_sentinel.Audit.Service.{
  UpdateData, Entry, amend, new_row, link_latest, record_entry, set_next, set_hashes, link_previous,
  relink, hash_before, final_row, update_record_and_recalculate,
}

module _ {F : Type 0} where
  -- The row less its three hashes.
  abbrev pub bare : Row F → Row F
  bare r = record r { hash = ""; previous_hash = none; next_hash = none }

  pub bare-update :
      (id : String) (f : Row F → Row F) (t : List (Row F))
      → ((r : Row F) → bare (f r) ≡ bare r)
      → map bare (update id f t) ≡ map bare t
  unfolding update
  bare-update id f [] h = refl
  bare-update id f (r ∷ t) h = elim (Bool-cases (r.id == id)) [
    | inl e ↦ rw e (cc (h r, bare-update id f t h))
    | inr e ↦ rw e (ap (λ u. bare r ∷ u) (bare-update id f t h))
  ]

  bare-link_previous :
      (last : Option String) (h : String) (t : List (Row F))
      → map bare (link_previous last h t) ≡ map bare t
  bare-link_previous none h t = refl
  bare-link_previous (some p) h t = elim (Bool-cases (p == "")) [
    | inl empty ↦ rw empty refl
    | inr given ↦ elim (Option-cases (find_hash p t)) [
      | inl missing ↦ rw (given, missing) refl
      | inr (s, found) ↦ rw (given, found) (bare-update s.id (set_next h) t (λ r. refl))
    ]
  ]

module _ {F : Type 0} ⦃js : Runtime F⦄ (sha256 : String → String) where
  -- The loop changes nothing but hashes.
  bare-relink :
      (last : Option String) (recs t : List (Row F))
      → map bare (relink sha256 last recs t).0 ≡ map bare t
  unfolding relink
  bare-relink last [] t = refl
  bare-relink last (r ∷ recs) t = elim (Option-cases (content_str r)) [
    | inl unread ↦ rw (unread, relink) refl
    | inr (content, read) ↦
        rw (read, relink)
          (let h = row_hash sha256 last content r in
            let t' = update r.id (set_hashes last h) t in
            bare-relink (some h) recs (link_previous last h t')
            ∙ bare-link_previous last h t'
            ∙ bare-update r.id (set_hashes last h) t (λ q. refl))
  ]

  bare-final_row : (id : String) (p : List (Row F) × Bool) → (final_row id p).0 ≡ p.0
  bare-final_row id (t, false) = refl
  bare-final_row id (t, true) = refl

  -- An update of a request that has a row amends that row, and changes nothing else but hashes, whether
  -- it returns or throws.
  pub bare-update_record :
      (request_id : String) (u : UpdateData F) (t : List (Row F)) (x : Row F)
      → find_request request_id t ≡ some x
      → map bare (update_record_and_recalculate sha256 request_id u t).0
        ≡ map bare (update x.id (amend u) t)
  unfolding update_record_and_recalculate
  bare-update_record request_id u t x found =
      let t' = update x.id (amend u) t in
      let last = hash_before x.chain_index t' in
      let recs = order_by_index (from_index x.chain_index t') in
      rw (found, update_record_and_recalculate)
        (ap (map bare) (bare-final_row x.id (relink sha256 last recs t'))
          ∙ bare-relink last recs t')

module _ {F : Type 0} where
  pub find_request-bare :
      (request_id : String) (t u : List (Row F)) (x : Row F)
      → map bare u ≡ map bare t
      → find_request request_id t ≡ some x
      → (r : Row F) × (find_request request_id u ≡ some r) × (bare r ≡ bare x)
  find_request-bare request_id [] u x same found = absurd (ground (arith, found))
  find_request-bare request_id (r ∷ t) [] x same found = absurd (ground (arith, same))
  find_request-bare request_id (r ∷ t) (s ∷ u) x same found =
      let head : bare s ≡ bare r = ap (λ l. elim l [ [] ↦ bare s | q ∷ qs ↦ q ]) same in
      let rest : map bare u ≡ map bare t = ap (λ l. elim l [ [] ↦ [] | q ∷ qs ↦ qs ]) same in
      let label : s.request_id ≡ r.request_id = ap (λ q. q.request_id) head in
      elim (Bool-cases (r.request_id == request_id)) [
        | inl e ↦
            let first : r ≡ x = ground (arith, e, found) in
            (s, ground (arith, e, label), head ∙ ap bare first)
        | inr e ↦
            let (q, here, equal) =
              find_request-bare request_id t u x rest (ground (arith, e, found)) in
            (q, ground (arith, e, label, here), equal)
      ]

  find_request-amend :
      (request_id : String) (d : UpdateData F) (id : String) (t : List (Row F)) (x : Row F)
      → x.id ≡ id
      → find_request request_id t ≡ some x
      → find_request request_id (update id (amend d) t) ≡ some (amend d x)
  unfolding update amend
  find_request-amend request_id d id [] x same found = absurd (ground (arith, found))
  find_request-amend request_id d id (r ∷ t) x same found =
      elim (Bool-cases (r.request_id == request_id)) [
        | inl e ↦
            let first : r ≡ x = ground (arith, e, found) in
            let named : (r.id == id) ≡ true =
              ap (λ q. q.id == id) first ∙ ap (λ i. i == id) same ∙ eq_refl id in
            rw named (rw e (ap (λ q. some (amend d q)) first))
        | inr e ↦
            let later = find_request-amend request_id d id t x same (ground (arith, e, found)) in
            elim (Bool-cases (r.id == id)) [ inl n ↦ rw n (rw e later) | inr n ↦ rw n (rw e later) ]
      ]

module _ {F : Type 0} ⦃js : Runtime F⦄ (sha256 : String → String) where
  -- After an update of a request that has a row, its row is the amended one but for the hashes.
  pub find_request-update :
      (request_id : String) (u : UpdateData F) (t : List (Row F)) (x : Row F)
      → find_request request_id t ≡ some x
      → (r : Row F) × (find_request request_id
            (update_record_and_recalculate sha256 request_id u t).0
          ≡ some r)
        × (bare r ≡ bare (amend u x))
  find_request-update request_id u t x found =
      find_request-bare request_id (update x.id (amend u) t) _ (amend u x)
        (bare-update_record sha256 request_id u t x found)
        (find_request-amend request_id u x.id t x refl found)

module _ {F : Type 0} ⦃js : Runtime F⦄ (sha256 : String → String) where
  bare-link_latest :
      (o : Option (Row F)) (h : String) (t : List (Row F))
      → map bare (link_latest o h t) ≡ map bare t
  bare-link_latest none h t = refl
  bare-link_latest (some s) h t = bare-update s.id (set_next h) t (λ r. refl)

  -- A record of a new request appends its row, and changes nothing else but hashes.
  pub bare-record_entry :
      (e : Entry F) (t : List (Row F)) (received timestamp : String)
      → any (λ r. r.request_id == e.request_id) t ≡ false
      → Fresh e.id t
      → js.iso_date (own e.raw_request "timestamp") ≡ some received
      → js.iso_date (own e.parsed_request "timestamp") ≡ some timestamp
      → map bare (record_entry sha256 e t).0
        ≡ map bare (t ++ new_row e received (find_latest t) ∷ [])
  bare-record_entry e t received timestamp new fresh d1 d2 =
      let row = new_row e received (find_latest t) in
      ap (λ p. map bare p.0) (record_entry_lem sha256 e t received timestamp new fresh d1 d2)
      ∙ bare-link_latest (find_latest t) _ _
      ∙ map-append bare t _
      ∙ sym (map-append bare t (row ∷ []))

module _ {F : Type 0} where
  -- Some row has the request.
  abbrev pub has_row : String → List (Row F) → Bool
  has_row request_id t = any (λ r. r.request_id == request_id) t

  pub has_row-bare :
      (request_id : String) (t u : List (Row F))
      → map bare u ≡ map bare t
      → has_row request_id u ≡ has_row request_id t
  has_row-bare request_id t u same =
      sym (any-map (λ r. r.request_id == request_id) bare u)
      ∙ ap (any (λ r. r.request_id == request_id)) same
      ∙ any-map (λ r. r.request_id == request_id) bare t

  has_row-amend :
      (request_id id : String) (d : UpdateData F) (t : List (Row F))
      → has_row request_id (update id (amend d) t) ≡ has_row request_id t
  unfolding update amend
  has_row-amend request_id id d [] = refl
  has_row-amend request_id id d (r ∷ t) = ground (arith, has_row-amend request_id id d t)

module _ {F : Type 0} ⦃js : Runtime F⦄ (sha256 : String → String) where
  -- An update neither adds the row of a request nor takes one away.
  pub has_row-update :
      (other request_id : String) (u : UpdateData F) (t : List (Row F))
      → has_row other (update_record_and_recalculate sha256 request_id u t).0 ≡ has_row other t
  unfolding update_record_and_recalculate
  has_row-update other request_id u t = elim (Option-cases (find_request request_id t)) [
    | inl none' ↦ rw (none', update_record_and_recalculate) refl
    | inr (x, found) ↦
        has_row-bare other (update x.id (amend u) t) _
          (bare-update_record sha256 request_id u t x found)
        ∙ has_row-amend other x.id u t
  ]
