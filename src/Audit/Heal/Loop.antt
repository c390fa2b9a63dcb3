-- ===== src/Audit/Heal/Loop.antt =====
-- The loop of `updateRecordAndRecalculate` (apps/api/src/audit/audit.service.ts) as a function of the
-- rows that it visits, and that its result is a chain.
use mini_sentinel.Prelude.{
  ℕ, suc, String, true, Option, some, List, [], ◌∷◌, ◌++◌, ◌≡◌, ◌≢◌, refl, sym, ◌∙◌, ap, map, any,
  ◌==◌, ◌||◌, All, All-append, append_assoc,
}
use mini_sentinel.Values.Runtime.{Runtime}
use mini_sentinel.Audit.Row.{Row, hash_input, content_str, row_hash}
use mini_sentinel.Audit.Store.{update}
use mini_sentinel.Audit.Service.{set_hashes, link_previous, relink}
use mini_sentinel.Audit.Verify.{Indexed, Chain}
use mini_sentinel.Audit.Append.{Fresh, update_one}
use mini_sentinel.Audit.Heal.Forward.{strip, strip-relink_step}

module _ {F : Type 0} where
  -- No two rows share an identifier.
  abbrev pub Distinct : List (Row F) → Type 0
  Distinct [] = Unit
  Distinct (r ∷ t) = Fresh r.id t × Distinct t

  -- No row of the second list has the identifier of one of the first.
  abbrev pub Apart : List (Row F) → List (Row F) → Type 0
  Apart rs t = All (λ r. Fresh r.id t) rs

  pub Fresh-strip : (id : String) (t : List (Row F)) → Fresh id t → Fresh id (map strip t)
  Fresh-strip id [] h = tt
  Fresh-strip id (r ∷ t) (n, h) = (n, Fresh-strip id t h)

  Apart-snoc :
      (rs t : List (Row F)) (r : Row F) → Apart rs t → Fresh r.id rs → Apart rs (t ++ r ∷ [])
  Apart-snoc [] t r h f = tt
  Apart-snoc (s ∷ rs) t r (h, hs) (n, f) =
      (All-append (λ q. q.id ≢ s.id) t (r ∷ []) h (λ e. n (sym e), tt), Apart-snoc rs t r hs f)

-- The date of the parsed request can be printed.
abbrev pub IsReadable : {F : Type 0} ⦃js : Runtime F⦄ → Row F → Type 0
IsReadable r = (content : String) × (content_str r ≡ some content)

module _ {F : Type 0} ⦃js : Runtime F⦄ (sha256 : String → String) where
  -- The rows hashed anew, each on the one before it.
  pub relinked : Option String → (t : List (Row F)) → All IsReadable t → List (Row F)
  relinked last [] h = []
  relinked last (r ∷ t) ((content, _), h) =
      let d = row_hash sha256 last content r in set_hashes last d (strip r) ∷ relinked (some d) t h

  pub relinked-Chain :
      (k : ℕ) (last : Option String) (t : List (Row F)) (h : All IsReadable t)
      → Indexed k t
      → Chain sha256 k last (relinked last t h)
  unfolding relinked content_str hash_input row_hash
  relinked-Chain k last [] h i = tt
  relinked-Chain k last (r ∷ t) ((content, readable), h) (index, i) = (
    record {
      index = index;
      previous = refl;
      content = content;
      readable = readable;
      digest = refl;
    },
    relinked-Chain (suc k) _ t h i,
  )

  -- With the identifiers distinct, the loop replaces the rows that it visits, and no date throws.
  pub relink-relinked :
      (last : Option String) (recs before t : List (Row F)) (h : All IsReadable recs)
      → Distinct recs
      → Apart recs before
      → map strip t ≡ before ++ map strip recs
      → (map strip (relink sha256 last recs t).0 ≡ before ++ relinked last recs h)
        × ((relink sha256 last recs t).1 ≡ true)
  unfolding relink relinked
  relink-relinked last [] before t h d a e = (e, refl)
  relink-relinked last (r ∷ recs) before t ((content, readable), h) (f, d) (a, b) e =
      let hash = row_hash sha256 last content r in
      let next = set_hashes last hash (strip r) in
      let step : map strip (link_previous last hash (update r.id (set_hashes last hash) t))
          ≡ (before ++ next ∷ []) ++ map strip recs =
        strip-relink_step r.id last hash t
        ∙ (ap (update r.id (set_hashes last hash)) e
            ∙ (update_one (set_hashes last hash) before (strip r) (map strip recs) a
                  (Fresh-strip r.id recs f)
                ∙ sym (append_assoc before (next ∷ []) (map strip recs)))) in
      let (same, ok) =
        relink-relinked (some hash) recs (before ++ next ∷ [])
          (link_previous last hash (update r.id (set_hashes last hash) t)) h d
          (Apart-snoc recs before next b f) step in
      rw (readable, relink) (same ∙ append_assoc before (next ∷ []) _, ok)

  pub relinked-has_id :
      (last : Option String) (t : List (Row F)) (h : All IsReadable t) (id : String)
      → any (λ r. r.id == id) (relinked last t h) ≡ any (λ r. r.id == id) t
  unfolding relinked
  relinked-has_id last [] h id = refl
  relinked-has_id last (r ∷ t) ((content, _), h) id =
      ap (λ b. r.id == id || b) (relinked-has_id (some (row_hash sha256 last content r)) t h id)
