-- ===== src/Audit/Heal/Update.antt =====
-- What `updateRecordAndRecalculate` (apps/api/src/audit/audit.service.ts) does to the trail.
use mini_sentinel.Prelude.{
  ℕ, suc, ◌+◌, String, Bool, true, Option, none, some, List, [], ◌∷◌, ◌++◌, map-append, ◌≡◌, refl,
  sym, ◌∙◌, ap, map, any, find?, ◌==◌, length, All, arith, eq_refl, any-append, Bool-cases, inl,
  inr,
}
use mini_sentinel.Values.Runtime.{Runtime}
use mini_sentinel.Audit.Row.{Row}
use mini_sentinel.Audit.Store.{find_request}
use mini_sentinel.Audit.Service.{
  done, UpdateData, amend, relink, final_row, update_record_and_recalculate, verified, verify_chain,
}
use mini_sentinel.Audit.Verify.{
  Indexed, Indexed-append, last_hash, Chain, Chain-append, verify_chain-Chain,
}
use mini_sentinel.Audit.Append.{Fresh, update_one}
use mini_sentinel.Audit.Heal.Forward.{strip, Chain-strip, Chain-map-strip, has_id-strip}
use mini_sentinel.Audit.Heal.Loop.{
  Distinct, Apart, Fresh-strip, IsReadable, relinked, relinked-Chain, relink-relinked,
  relinked-has_id,
}
use mini_sentinel.Audit.Heal.Prefix.{rows_from, NonEmpty, hash_before-Chain}

module _ {F : Type 0} where
  Apart-cons : (rs t : List (Row F)) (r : Row F) → Apart rs t → Fresh r.id rs → Apart rs (r ∷ t)
  Apart-cons [] t r h f = tt
  Apart-cons (s ∷ rs) t r (h, hs) (n, f) = ((λ e. n (sym e), h), Apart-cons rs t r hs f)

  Fresh-append : (id : String) (t u : List (Row F)) → Fresh id (t ++ u) → Fresh id u
  Fresh-append id [] u h = h
  Fresh-append id (r ∷ t) u h = Fresh-append id t u h.1

  pub Distinct-append : (t u : List (Row F)) → Distinct (t ++ u) → Distinct u × Apart u t
  Distinct-append [] u h = (h, Apart-nil u)
    where
      Apart-nil : (u : List (Row F)) → Apart u []
      Apart-nil [] = tt
      Apart-nil (r ∷ u) = (tt, Apart-nil u)
  Distinct-append (r ∷ t) u (f, h) =
      let (d, a) = Distinct-append t u h in (d, Apart-cons u t r a (Fresh-append r.id t u f))

  Apart-strip : (rs t : List (Row F)) → Apart rs t → Apart rs (map strip t)
  Apart-strip [] t h = tt
  Apart-strip (r ∷ rs) t (h, hs) = (Fresh-strip r.id t h, Apart-strip rs t hs)

  last_hash-strip :
      (p : Option String) (t : List (Row F)) → last_hash p (map strip t) ≡ last_hash p t
  last_hash-strip p [] = refl
  last_hash-strip p (r ∷ t) = last_hash-strip (some r.hash) t

  length-strip : (t : List (Row F)) → length (map strip t) ≡ length t
  length-strip [] = refl
  length-strip (r ∷ t) = ap suc (length-strip t)

  Fresh-replace :
      (id : String) (t : List (Row F)) (x y : Row F) (u : List (Row F))
      → y.id ≡ x.id
      → Fresh id (t ++ x ∷ u)
      → Fresh id (t ++ y ∷ u)
  Fresh-replace id [] x y u e (n, f) = (λ q. n (sym e ∙ q), f)
  Fresh-replace id (r ∷ t) x y u e (n, f) = (n, Fresh-replace id t x y u e f)

  Distinct-replace :
      (t : List (Row F)) (x y : Row F) (u : List (Row F))
      → y.id ≡ x.id
      → Distinct (t ++ x ∷ u)
      → Distinct (t ++ y ∷ u)
  Distinct-replace [] x y u e (f, d) = (rw e f, d)
  Distinct-replace (r ∷ t) x y u e (f, d) =
      (Fresh-replace r.id t x y u e f, Distinct-replace t x y u e d)

  Indexed-replace :
      (k : ℕ) (t : List (Row F)) (x y : Row F) (u : List (Row F))
      → y.chain_index ≡ x.chain_index
      → Indexed k (t ++ x ∷ u)
      → Indexed k (t ++ y ∷ u)
  Indexed-replace k [] x y u e (i, h) = (e ∙ i, h)
  Indexed-replace k (r ∷ t) x y u e (i, h) = (i, Indexed-replace (suc k) t x y u e h)

  find?-any :
      (p : Row F → Bool) (t : List (Row F)) → any p t ≡ true → (r : Row F) × (find? p t ≡ some r)
  find?-any p [] h = absurd (ground arith)
  find?-any p (r ∷ t) h = elim (Bool-cases (p r)) [
    | inl yes' ↦ (r, rw yes')
    | inr no' ↦ let (s, e) = find?-any p t (ground arith) in (s, rw no' e)
  ]

  final_row_lem :
      (id : String) (p : List (Row F) × Bool)
      → p.1 ≡ true
      → any (λ r. r.id == id) p.0 ≡ true
      → (r : Row F) × (final_row id p ≡ (p.0, done r))
  final_row_lem id p h e = let (r, found) = find?-any (λ q. q.id == id) p.0 e in (r, rw (h, found))

module _ {F : Type 0} ⦃js : Runtime F⦄ (sha256 : String → String) where
  module _ (before recs : List (Row F)) (h : All IsReadable recs) (i : Indexed 0 (before ++ recs))
      (d : Distinct (before ++ recs)) where
    -- The outcome of the loop run from a row of a table on.
    after_loop : List (Row F) × Bool
    after_loop = relink sha256 (last_hash none before) recs (before ++ recs)

    after_loop_rows :
        (map strip after_loop.0
          ≡ map strip before ++ relinked sha256 (last_hash none before) recs h)
        × (after_loop.1 ≡ true)
    unfolding after_loop
    after_loop_rows =
        let (distinct, apart) = Distinct-append before recs d in
        relink-relinked sha256 (last_hash none before) recs (map strip before) (before ++ recs) h
          distinct (Apart-strip recs before apart) (map-append strip before recs)

    after_loop-Chain : Chain sha256 0 none before → Chain sha256 0 none after_loop.0
    after_loop-Chain c = Chain-strip sha256 0 none after_loop.0 (
        rw (after_loop_rows.0) (
          Chain-append sha256 0 none (map strip before) _ (Chain-map-strip sha256 0 none before c)
            {n = 0 + length before} (omega (arith, length-strip before))
            (rw (last_hash-strip none before)
              (relinked-Chain sha256 _ _ recs h ((Indexed-append 0 before recs).0 i).1))))

    after_loop-has_id :
        (id : String)
        → any (λ r. r.id == id) recs ≡ true
        → any (λ r. r.id == id) after_loop.0 ≡ true
    after_loop-has_id id e =
        let has = λ (r : Row F). r.id == id in
        let kept = relinked sha256 (last_hash none before) recs h in
        let found : any has kept ≡ true =
          relinked-has_id sha256 (last_hash none before) recs h id ∙ e in
        sym (has_id-strip id after_loop.0)
        ∙ (ap (any has) (after_loop_rows.0)
            ∙ (any-append has (map strip before) kept ∙ ground (arith, found)))

  module _ (ne : NonEmpty sha256) (u : UpdateData F) (before after : List (Row F)) (x : Row F) where
    abbrev amended : List (Row F)
    amended = amend u x ∷ after

    same_id : (amend u x).id ≡ x.id
    unfolding amend
    same_id = refl

    same_index : (amend u x).chain_index ≡ x.chain_index
    unfolding amend
    same_index = refl

    update_lem :
        find_request x.request_id (before ++ x ∷ after) ≡ some x
        → Chain sha256 0 none before
        → Indexed 0 (before ++ x ∷ after)
        → Distinct (before ++ x ∷ after)
        → update_record_and_recalculate sha256 x.request_id u (before ++ x ∷ after)
          ≡ final_row x.id (relink sha256 (last_hash none before) amended (before ++ amended))
    unfolding update_record_and_recalculate
    update_lem found c i d =
        let (distinct, apart) = Distinct-append before (x ∷ after) d in
        let here : x.chain_index ≡ length before =
          omega (arith, ((Indexed-append 0 before (x ∷ after)).0 i).1.0) in
        let indexed = Indexed-replace 0 before x (amend u x) after same_index i in
        rw (
          found,
          update_record_and_recalculate,
          update_one (amend u) before x after apart.0 distinct.0,
          rows_from x.chain_index before amended indexed here,
          hash_before-Chain sha256 ne x.chain_index before amended c here,
        )

    -- The rows after the update form a chain, and a row is returned.
    pub update-Chain :
        find_request x.request_id (before ++ x ∷ after) ≡ some x
        → Chain sha256 0 none before
        → Indexed 0 (before ++ x ∷ after)
        → Distinct (before ++ x ∷ after)
        → All IsReadable amended
        → Chain sha256 0 none
            (update_record_and_recalculate sha256 x.request_id u (before ++ x ∷ after)).0
          × ((r : Row F) × ((update_record_and_recalculate sha256 x.request_id u
                  (before ++ x ∷ after)).1
                ≡ done r))
    unfolding after_loop
    update-Chain found c i d h =
        let indexed = Indexed-replace 0 before x (amend u x) after same_index i in
        let distinct = Distinct-replace before x (amend u x) after same_id d in
        let has : any (λ r. r.id == x.id) amended ≡ true = rw (same_id, eq_refl x.id) in
        let (r, e) =
          final_row_lem x.id (after_loop before amended h indexed distinct)
            (after_loop_rows before amended h indexed distinct).1
            (after_loop-has_id before amended h indexed distinct x.id has) in
        rw (update_lem found c i d, e)
          (after_loop-Chain before amended h indexed distinct c, (r, refl))

    -- Where the rows before the updated one form a chain, the identifiers are distinct, the indices
    -- consecutive, and the dates of the updated row and of the rows after it valid, the update returns
    -- a row and the whole table is verified: also where the rows from the updated one on were not.
    pub update-verified :
        find_request x.request_id (before ++ x ∷ after) ≡ some x
        → Chain sha256 0 none before
        → Indexed 0 (before ++ x ∷ after)
        → Distinct (before ++ x ∷ after)
        → All IsReadable amended
        → (verify_chain sha256
              (update_record_and_recalculate sha256 x.request_id u (before ++ x ∷ after)).0
            ≡ verified)
          × ((r : Row F) × ((update_record_and_recalculate sha256 x.request_id u
                  (before ++ x ∷ after)).1
                ≡ done r))
    update-verified found c i d h =
        let (chain, answer) = update-Chain found c i d h in
        (verify_chain-Chain sha256 _ chain, answer)
