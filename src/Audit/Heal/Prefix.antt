-- ===== src/Audit/Heal/Prefix.antt =====
-- Where the loop of `updateRecordAndRecalculate` (apps/api/src/audit/audit.service.ts) starts: the
-- rows from an index on, and the hash of the row before them.
use mini_sentinel.Prelude.{
  ℕ, suc, ◌+◌, ◌≤◌, String, false, Option, none, some, List, [], ◌∷◌, ◌++◌, ◌≡◌, ◌≢◌, refl, leb,
  length, filter-append, arith, eq_iff, sym, ◌∙◌, eqb,
}
use mini_sentinel.Values.Runtime.{Runtime}
use mini_sentinel.Audit.Row.{Row, row_hash}
use mini_sentinel.Audit.Store.{find_index, from_index, order_by_index}
use mini_sentinel.Audit.Service.{hash_before}
use mini_sentinel.Audit.Verify.{Indexed, Indexed-append, last_hash, Chain, order_by_index-Indexed}

module _ {F : Type 0} where
  from_index_before :
      (k n : ℕ) (t : List (Row F)) → Indexed k t → k + length t ≤ n → from_index n t ≡ []
  from_index_before k n [] i h = refl
  from_index_before k n (r ∷ t) i h = ground (arith, from_index_before (suc k) n t i.1)

  from_index_after : (k n : ℕ) (t : List (Row F)) → Indexed k t → n ≤ k → from_index n t ≡ t
  from_index_after k n [] i h = refl
  from_index_after k n (r ∷ t) i h = ground (arith, from_index_after (suc k) n t i.1)

  -- The rows from the index of one row of the table on, in the order of their indices.
  pub rows_from :
      (n : ℕ) (t u : List (Row F))
      → Indexed 0 (t ++ u)
      → n ≡ length t
      → order_by_index (from_index n (t ++ u)) ≡ u
  rows_from n t u i e =
      let (before, after) = (Indexed-append 0 t u).0 i in
      rw
        (
          filter-append (λ (r : Row F). leb n r.chain_index) t u,
          from_index_before 0 n t before (omega arith),
          from_index_after _ n u after (omega arith),
        )
        (order_by_index-Indexed _ u after)

-- A digest is never the empty text.
abbrev pub NonEmpty : (String → String) → Type 0
NonEmpty sha256 = (s : String) → sha256 s ≢ ""

module _ {F : Type 0} ⦃js : Runtime F⦄ (sha256 : String → String) (ne : NonEmpty sha256) where
  row_hash-ne :
      (p : Option String) (content : String) (r : Row F) → row_hash sha256 p content r ≢ ""
  unfolding row_hash
  row_hash-ne p content r = ne _

  find_index-last :
      (k n : ℕ) (p : Option String) (r : Row F) (t u : List (Row F))
      → Chain sha256 k p (r ∷ t)
      → n ≡ k + length t
      → (s : Row F) × (find_index n (r ∷ (t ++ u)) ≡ some s)
        × (last_hash p (r ∷ t) ≡ some s.hash)
        × (s.hash ≢ "")
  find_index-last k n p r [] u (l, c) e =
      (r, ground (arith, l.index), refl, λ h. row_hash-ne p l.content r (sym l.digest ∙ h))
  find_index-last k n p r (q ∷ t) u (l, c) e =
      let (s, found, last, given) =
        find_index-last (suc k) n (some r.hash) q t u c (omega (arith, e)) in
      let other : eqb r.chain_index n ≡ false = ground (arith, l.index, e) in
      (s, rw other found, last, given)

  -- The loop starts from the hash of the last row of the chain before it.
  pub hash_before-Chain :
      (n : ℕ) (t u : List (Row F))
      → Chain sha256 0 none t
      → n ≡ length t
      → hash_before n (t ++ u) ≡ last_hash none t
  unfolding hash_before
  hash_before-Chain n [] u c e = rw e
  hash_before-Chain n (r ∷ t) u c e =
      let (s, found, last, given) = find_index-last 0 (length t) none r t u c (omega arith) in
      rw (e, found, last) (ground (arith, eq_iff s.hash "", given))
