-- ===== src/Audit/Heal/Forward.antt =====
-- The rows less their `nextHash`: what `verifyChain` reads, and what the links forward leave alone
-- (apps/api/src/audit/audit.service.ts).
use mini_sentinel.Prelude.{
  ℕ, suc, String, Option, none, some, List, [], ◌∷◌, ◌≡◌, refl, ◌∙◌, inl, inr, map, any, ◌==◌,
  Bool-cases, Option-cases,
}
use mini_sentinel.Values.Runtime.{Runtime}
use mini_sentinel.Audit.Row.{Row, hash_input, content_str, row_hash}
use mini_sentinel.Audit.Store.{change, update, find_hash}
use mini_sentinel.Audit.Service.{set_next, set_hashes, link_previous}
use mini_sentinel.Audit.Verify.{IsLinked, Chain}

module _ {F : Type 0} where
  abbrev pub strip : Row F → Row F
  strip r = record r { next_hash = none }

  strip-change_next : (id h : String) (r : Row F) → strip (change id (set_next h) r) ≡ strip r
  strip-change_next id h r = elim (Bool-cases (r.id == id)) [
    | inl same ↦ rw same
    | inr other ↦ rw other
  ]

  strip-update_next :
      (id h : String) (t : List (Row F)) → map strip (update id (set_next h) t) ≡ map strip t
  unfolding update
  strip-update_next id h [] = refl
  strip-update_next id h (r ∷ t) = cc (strip-change_next id h r, strip-update_next id h t)

  strip-link_previous :
      (last : Option String) (h : String) (t : List (Row F))
      → map strip (link_previous last h t) ≡ map strip t
  strip-link_previous none h t = refl
  strip-link_previous (some p) h t = elim (Bool-cases (p == "")) [
    | inl empty ↦ rw empty
    | inr given ↦ elim (Option-cases (find_hash p t)) [
      | inl missing ↦ rw (given, missing)
      | inr (s, found) ↦ rw (given, found) (strip-update_next s.id h t)
    ]
  ]

  strip-change_hashes :
      (id : String) (p : Option String) (h : String) (r : Row F)
      → strip (change id (set_hashes p h) r) ≡ change id (set_hashes p h) (strip r)
  strip-change_hashes id p h r = elim (Bool-cases (r.id == id)) [
    | inl same ↦ rw same
    | inr other ↦ rw other
  ]

  pub strip-update_hashes :
      (id : String) (p : Option String) (h : String) (t : List (Row F))
      → map strip (update id (set_hashes p h) t) ≡ update id (set_hashes p h) (map strip t)
  unfolding update
  strip-update_hashes id p h [] = refl
  strip-update_hashes id p h (r ∷ t) =
      cc (strip-change_hashes id p h r, strip-update_hashes id p h t)

  -- One round of the loop, up to the links forward.
  pub strip-relink_step :
      (id : String) (last : Option String) (h : String) (t : List (Row F))
      → map strip (link_previous last h (update id (set_hashes last h) t))
        ≡ update id (set_hashes last h) (map strip t)
  strip-relink_step id last h t =
      strip-link_previous last h (update id (set_hashes last h) t) ∙ strip-update_hashes id last h t

  pub has_id-strip :
      (id : String) (t : List (Row F))
      → any (λ r. r.id == id) (map strip t) ≡ any (λ r. r.id == id) t
  has_id-strip id [] = refl
  has_id-strip id (r ∷ t) = rw (has_id-strip id t)

module _ {F : Type 0} ⦃js : Runtime F⦄ (sha256 : String → String) where
  IsLinked-strip :
      (k : ℕ) (p : Option String) (r : Row F)
      → IsLinked sha256 k p (strip r)
      → IsLinked sha256 k p r
  unfolding content_str hash_input row_hash
  IsLinked-strip k p r l = record {
    index = l.index;
    previous = l.previous;
    content = l.content;
    readable = l.readable;
    digest = l.digest;
  }

  pub Chain-strip :
      (k : ℕ) (p : Option String) (t : List (Row F))
      → Chain sha256 k p (map strip t)
      → Chain sha256 k p t
  Chain-strip k p [] c = tt
  Chain-strip k p (r ∷ t) (l, c) = (IsLinked-strip k p r l, Chain-strip (suc k) _ t c)

  IsLinked-strip_self :
      (k : ℕ) (p : Option String) (r : Row F)
      → IsLinked sha256 k p r
      → IsLinked sha256 k p (strip r)
  unfolding content_str hash_input row_hash
  IsLinked-strip_self k p r l = record {
    index = l.index;
    previous = l.previous;
    content = l.content;
    readable = l.readable;
    digest = l.digest;
  }

  pub Chain-map-strip :
      (k : ℕ) (p : Option String) (t : List (Row F))
      → Chain sha256 k p t
      → Chain sha256 k p (map strip t)
  Chain-map-strip k p [] c = tt
  Chain-map-strip k p (r ∷ t) (l, c) = (IsLinked-strip_self k p r l, Chain-map-strip (suc k) _ t c)
