-- ===== src/Audit/Tamper.antt =====
-- What `verifyChain` (apps/api/src/audit/audit.service.ts) answers about a row that was changed in
-- the database.
use mini_sentinel.Prelude.{
  ℕ, suc, ◌+◌, String, ◌⊎◌, inl, inr, Bool-cases, ◌==◌, Option, none, some, List, [], ◌∷◌, ◌++◌,
  ◌≡◌, ◌≢◌, sym, ◌∙◌, ap, length, arith, eq_iff, ◌^^◌,
}
use mini_sentinel.Values.Runtime.{Runtime}
use mini_sentinel.Audit.Row.{Row, content_str, row_hash}
use mini_sentinel.Audit.Altered.{IsAltered, IsAltered-kept, content_str-altered}
use mini_sentinel.Audit.Service.{tampered, check_row, verify_from, verify_chain}
use mini_sentinel.Audit.Verify.{
  same_hash_iff, Indexed, Indexed-append, last_hash, Chain, Chain-split, Chain-Indexed,
  order_by_index-Indexed, IsLinked-check_row,
}

module _ {F : Type 0} ⦃js : Runtime F⦄ (sha256 : String → String) where
  verify_from-append :
      (k : ℕ) (p : Option String) (t u : List (Row F)) (n : ℕ)
      → Chain sha256 k p t
      → n ≡ k + length t
      → verify_from sha256 k p (t ++ u) ≡ verify_from sha256 n (last_hash p t) u
  unfolding verify_from
  verify_from-append k p [] u n c e = let same : n ≡ k = omega (arith, e) in rw same
  verify_from-append k p (r ∷ t) u n (l, c) e =
      rw (IsLinked-check_row sha256 k p r l, verify_from)
        (verify_from-append (suc k) (some r.hash) t u n c (omega (arith, e)))

  check_row-tampered :
      (i : ℕ) (p : Option String) (r : Row F) (content : String)
      → r.chain_index ≡ i
      → r.previous_hash ≡ p
      → content_str r ≡ some content
      → r.hash ≢ row_hash sha256 p content r
      → (reason : String) × (check_row sha256 i p r ≡ some (tampered i reason))
  unfolding check_row
  check_row-tampered i p r content e1 e2 e3 n = (
    "Integrity failure: Computed hash is '"
        ^^ row_hash sha256 r.previous_hash content r
        ^^ "', but record contains '"
        ^^ r.hash
        ^^ "'",
    ground (
      arith,
      same_hash_iff r.previous_hash p,
      eq_iff r.hash (row_hash sha256 r.previous_hash content r),
    ),
  )

  -- The digest gives the hashed texts of the two rows, which are not the same, one hash.
  abbrev pub Collide : Row F → Row F → Type 0
  Collide r r' =
      (content : String) × (content' : String) × (content_str r ≡ some content)
      × (content_str r' ≡ some content')
      × (content ≢ content')
      × (row_hash sha256 r.previous_hash content r ≡ row_hash sha256 r'.previous_hash content' r')

  -- In a chain that verifies, a row of which one hashed column was changed makes `verifyChain` answer
  -- with the row's index, whatever the rows after it hold, as long as their indices run on; or else the
  -- digest has the same value on the two different texts that are hashed for the row before and after.
  -- Changed means printed otherwise by `JSON.stringify`; of the parsed request it is the parameters.
  pub tampered_row :
      (before after after' : List (Row F)) (r r' : Row F)
      → Chain sha256 0 none (before ++ r ∷ after)
      → Indexed (suc (length before)) after'
      → IsAltered r r'
      → ((reason : String) × (verify_chain sha256 (before ++ r' ∷ after')
            ≡ tampered (length before) reason))
        ⊎ Collide r r'
  unfolding verify_chain
  tampered_row before after after' r r' c i altered =
      let (whole, rest) =
        Chain-split sha256 0 (length before) none before (r ∷ after) (omega arith) c in
      let linked = rest.0 in
      let (e1, e2, e3, date) = IsAltered-kept r r' altered in
      let (content', readable, other) =
        content_str-altered r r' linked.content altered linked.readable in
      let shift : suc (0 + length before) ≡ suc (length before) = omega arith in
      let indexed =
        (Indexed-append 0 before (r' ∷ after')).1 (
          Chain-Indexed sha256 0 none before whole,
          (omega (arith, e1, linked.index), rw shift i),
        ) in
      elim (Bool-cases (r'.hash == row_hash sha256 r'.previous_hash content' r')) [
        | inl same ↦ inr (
          linked.content,
          content',
          linked.readable,
          readable,
          other,
          sym (
              sym (
                ground (arith, same, eq_iff r'.hash (row_hash sha256 r'.previous_hash content' r')))
              ∙ e3
              ∙ linked.digest
              ∙ ap (λ p. row_hash sha256 p linked.content r) (sym linked.previous)),
        )
        | inr differ ↦
            let (reason, found) =
              check_row-tampered (length before) (last_hash none before) r' content'
                (e1 ∙ linked.index) (e2 ∙ linked.previous) readable
                (ground
                  (arith, differ, eq_iff r'.hash (row_hash sha256 r'.previous_hash content' r'))) in
            inl (
              reason,
              rw
                  (
                    order_by_index-Indexed 0 (before ++ r' ∷ after') indexed,
                    verify_from-append 0 none before (r' ∷ after') (length before) whole
                        (omega arith),
                  )
                  (rw (found, verify_from)),
            )
      ]
