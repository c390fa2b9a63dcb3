-- ===== src/Audit/Append.antt =====
-- `record` of apps/api/src/audit/audit.service.ts keeps the chain verified.
use mini_sentinel.Prelude.{
  ℕ, suc, ◌+◌, String, true, false, Option, none, some, List, [], ◌∷◌, ◌++◌, ◌≡◌, refl, sym, ◌≢◌,
  inl, inr, length, Option-cases, Bool-cases, any, All, arith, eq_iff, eq_refl, ◌==◌, length-append,
}
use mini_sentinel.Values.Runtime.{Runtime, stringify}
use mini_sentinel.Audit.Row.{Row, own, hash_input, content_str, row_hash}
use mini_sentinel.Audit.Store.{find_latest, change, update}
use mini_sentinel.Audit.Service.{
  done, internal_error, Entry, new_row, set_hash, set_next, link_latest, record_entry, verified,
  verify_chain, hash_of, next_index,
}
use mini_sentinel.Audit.Verify.{
  Indexed, last_hash, IsLinked, Chain, Chain-Indexed, Chain-append, verify_chain-Chain,
}

module _ {F : Type 0} where
  -- No row has the identifier.
  abbrev pub Fresh : String → List (Row F) → Type 0
  Fresh id t = All (λ r. r.id ≢ id) t

  change_other : (id : String) (f : Row F → Row F) (r : Row F) → r.id ≢ id → change id f r ≡ r
  change_other id f r h = ground (arith, eq_iff r.id id)

  pub update-Fresh :
      (id : String) (f : Row F → Row F) (t : List (Row F)) → Fresh id t → update id f t ≡ t
  unfolding update
  update-Fresh id f [] h = refl
  update-Fresh id f (r ∷ t) (n, h) = rw (change_other id f r n, update-Fresh id f t h)

  pub update-append :
      (id : String) (f : Row F → Row F) (t u : List (Row F))
      → update id f (t ++ u) ≡ update id f t ++ update id f u
  unfolding update
  update-append id f [] u = refl
  update-append id f (r ∷ t) u = rw (update-append id f t u)

  -- An update of one row of a table, where no other row has its identifier.
  pub update_one :
      (f : Row F → Row F) (t : List (Row F)) (r : Row F) (u : List (Row F))
      → Fresh r.id t
      → Fresh r.id u
      → update r.id f (t ++ r ∷ u) ≡ t ++ f r ∷ u
  update_one f t r u ht hu =
      rw (update-append r.id f t (r ∷ u), update-Fresh r.id f t ht)
        (unfold update in rw (eq_refl r.id, update-Fresh r.id f u hu))

  pub length-update :
      (id : String) (f : Row F → Row F) (t : List (Row F)) → length (update id f t) ≡ length t
  unfolding update
  length-update id f [] = refl
  length-update id f (r ∷ t) = rw (length-update id f t)

  find_latest-Indexed :
      (k : ℕ) (p : Option String) (r : Row F) (t : List (Row F))
      → Indexed k (r ∷ t)
      → (s : Row F) × (find_latest (r ∷ t) ≡ some s)
        × (s.chain_index ≡ k + length t)
        × (last_hash p (r ∷ t) ≡ some s.hash)
  unfolding find_latest
  find_latest-Indexed k p r [] h = (r, refl, omega arith, refl)
  find_latest-Indexed k p r (r' ∷ t) h =
      let (s, found, index, last) = find_latest-Indexed (suc k) (some r.hash) r' t h.1 in
      (s, ground arith, omega arith, last)

module _ {F : Type 0} where
  hash-change-set_next : (id h : String) (r : Row F) → (change id (set_next h) r).hash ≡ r.hash
  hash-change-set_next id h r = ground arith

  pub last_hash-set_next :
      (id h : String) (p : Option String) (t : List (Row F))
      → last_hash p (update id (set_next h) t) ≡ last_hash p t
  unfolding update
  last_hash-set_next id h p [] = refl
  last_hash-set_next id h p (r ∷ t) =
      rw (last_hash, hash-change-set_next id h r) (last_hash-set_next id h (some r.hash) t)

  length-link_latest :
      (o : Option (Row F)) (h : String) (u : List (Row F)) → length (link_latest o h u) ≡ length u
  length-link_latest none h u = refl
  length-link_latest (some s) h u = length-update s.id (set_next h) u

  latest_links :
      (t : List (Row F))
      → Indexed 0 t
      → (next_index (find_latest t) ≡ length t) × (hash_of (find_latest t) ≡ last_hash none t)
  latest_links [] h = unfold find_latest in (refl, refl)
  latest_links (r ∷ t) h =
      let (s, found, index, last) = find_latest-Indexed 0 none r t h in
      rw found (omega arith, sym last)

module _ {F : Type 0} ⦃js : Runtime F⦄ (sha256 : String → String) where
  IsLinked-set_next :
      (k : ℕ) (p : Option String) (h : String) (r : Row F)
      → IsLinked sha256 k p r
      → IsLinked sha256 k p (set_next h r)
  unfolding content_str hash_input row_hash
  IsLinked-set_next k p h r l = record {
    index = l.index;
    previous = l.previous;
    content = l.content;
    readable = l.readable;
    digest = l.digest;
  }

  IsLinked-change :
      (k : ℕ) (p : Option String) (id h : String) (r : Row F)
      → IsLinked sha256 k p r
      → IsLinked sha256 k p (change id (set_next h) r)
  IsLinked-change k p id h r l = elim (Bool-cases (r.id == id)) [
    | inl same ↦ rw same (IsLinked-set_next k p h r l)
    | inr other ↦ rw other l
  ]

  -- The links forward are not part of what is verified.
  pub Chain-set_next :
      (k : ℕ) (p : Option String) (id h : String) (t : List (Row F))
      → Chain sha256 k p t
      → Chain sha256 k p (update id (set_next h) t)
  unfolding update
  Chain-set_next k p id h [] c = tt
  Chain-set_next k p id h (r ∷ t) (l, c) = (
    IsLinked-change k p id h r l,
    rw (hash-change-set_next id h r) (Chain-set_next (suc k) (some r.hash) id h t c),
  )

  Chain-link_latest :
      (o : Option (Row F)) (h : String) (u : List (Row F))
      → Chain sha256 0 none u
      → Chain sha256 0 none (link_latest o h u)
  Chain-link_latest none h u c = c
  Chain-link_latest (some s) h u c = Chain-set_next 0 none s.id h u c

  -- A second record of a request is refused, and the table is as it was.
  pub record_entry_duplicate :
      (e : Entry F) (t : List (Row F))
      → any (λ r. r.request_id == e.request_id) t ≡ true
      → record_entry sha256 e t ≡ (t, internal_error "Failed to append to audit trail")
  unfolding record_entry
  record_entry_duplicate e t h = elim (Option-cases (js.iso_date (own e.raw_request "timestamp"))) [
    | inl bad ↦ rw bad
    | inr (d, good) ↦ rw (good, h)
  ]

  module _ (e : Entry F) (t : List (Row F)) (received timestamp : String) where
    abbrev row : Row F
    row = new_row e received (find_latest t)

    abbrev entry_hash : String
    entry_hash = row_hash sha256 row.previous_hash (stringify (hash_input row timestamp)) row

    content_str-row :
        js.iso_date (own e.parsed_request "timestamp") ≡ some timestamp
        → content_str row ≡ some (stringify (hash_input row timestamp))
    unfolding content_str new_row
    content_str-row d = rw d

    update-row :
        (f : Row F → Row F) → Fresh e.id t → update row.id f (t ++ row ∷ []) ≡ t ++ f row ∷ []
    unfolding new_row
    update-row f fresh = update_one f t row [] fresh tt

    pub record_entry_lem :
        any (λ r. r.request_id == e.request_id) t ≡ false
        → Fresh e.id t
        → js.iso_date (own e.raw_request "timestamp") ≡ some received
        → js.iso_date (own e.parsed_request "timestamp") ≡ some timestamp
        → record_entry sha256 e t ≡ (
          link_latest (find_latest t) entry_hash (t ++ set_hash entry_hash row ∷ []),
          done (set_hash entry_hash row),
        )
    unfolding record_entry
    record_entry_lem new fresh d1 d2 =
        rw (d1, new, content_str-row d2, update-row (set_hash entry_hash) fresh)

    IsLinked-row :
        Indexed 0 t
        → js.iso_date (own e.parsed_request "timestamp") ≡ some timestamp
        → IsLinked sha256 (length t) (last_hash none t) (set_hash entry_hash row)
    unfolding content_str hash_input row_hash new_row
    IsLinked-row indexed d = record {
      index = (latest_links t indexed).0;
      previous = (latest_links t indexed).1;
      content = stringify (hash_input row timestamp);
      readable = rw d;
      digest = rw (← (latest_links t indexed).1);
    }

    extended-Chain :
        Chain sha256 0 none t
        → js.iso_date (own e.parsed_request "timestamp") ≡ some timestamp
        → Chain sha256 0 none
            (link_latest (find_latest t) entry_hash (t ++ set_hash entry_hash row ∷ []))
    extended-Chain c d2 = Chain-link_latest (find_latest t) entry_hash _ (
        Chain-append sha256 0 none t _ c (omega arith)
          (IsLinked-row (Chain-Indexed sha256 0 none t c) d2, tt))

    -- A new record of a request keeps a chain.
    pub record_entry-Chain :
        Chain sha256 0 none t
        → any (λ r. r.request_id == e.request_id) t ≡ false
        → Fresh e.id t
        → js.iso_date (own e.raw_request "timestamp") ≡ some received
        → js.iso_date (own e.parsed_request "timestamp") ≡ some timestamp
        → Chain sha256 0 none (record_entry sha256 e t).0
    record_entry-Chain c new fresh d1 d2 =
        rw (record_entry_lem new fresh d1 d2) (extended-Chain c d2)

    -- A new record of a request, with valid dates and a fresh identifier, extends a verified chain by
    -- one row: the chain is verified again, and the row that is returned has the request's identifier
    -- and the next index.
    pub record_entry-verified :
        Chain sha256 0 none t
        → any (λ r. r.request_id == e.request_id) t ≡ false
        → Fresh e.id t
        → js.iso_date (own e.raw_request "timestamp") ≡ some received
        → js.iso_date (own e.parsed_request "timestamp") ≡ some timestamp
        → (verify_chain sha256 (record_entry sha256 e t).0 ≡ verified)
          × (length (record_entry sha256 e t).0 ≡ suc (length t))
          × ((r : Row F) × ((record_entry sha256 e t).1 ≡ done r)
              × (r.request_id ≡ e.request_id)
              × (r.chain_index ≡ length t))
    record_entry-verified c new fresh d1 d2 =
        let linked = IsLinked-row (Chain-Indexed sha256 0 none t c) d2 in
        rw (record_entry_lem new fresh d1 d2) (
          verify_chain-Chain sha256 _ (extended-Chain c d2),
          rw (length-link_latest (find_latest t) entry_hash _, length-append t _) (omega arith),
          (set_hash entry_hash row, refl, unfold new_row in refl, linked.index),
        )
