-- ===== src/Audit/Verify.antt =====
-- What `verifyChain` (apps/api/src/audit/audit.service.ts) accepts, as a relation on the rows.
use mini_sentinel.Prelude.{
  ℕ, suc, ◌+◌, String, true, Option, none, some, List, [], ◌∷◌, ◌++◌, ◌≡◌, refl, ◌≢◌, ◌↔◌, inl, inr,
  length, Option-cases, arith, eq_iff, subst,
}
use mini_sentinel.Values.Runtime.{Runtime}
use mini_sentinel.Audit.Row.{Row, content_str, row_hash}
use mini_sentinel.Audit.Store.{order_by_index}
use mini_sentinel.Audit.Service.{verified, same_hash, check_row, verify_from, verify_chain}

pub same_hash_iff : (a b : Option String) → (same_hash a b ≡ true) ↔ (a ≡ b)
unfolding same_hash
same_hash_iff none none = ground arith
same_hash_iff none (some b) = ground arith
same_hash_iff (some a) none = ground arith
same_hash_iff (some a) (some b) = ground (arith, eq_iff a b)

module _ {F : Type 0} where
  -- The rows are stored with consecutive indices from `k` on.
  abbrev pub Indexed : ℕ → List (Row F) → Type 0
  Indexed k [] = Unit
  Indexed k (r ∷ rs) = (r.chain_index ≡ k) × Indexed (suc k) rs

  -- The hash that the row after these refers to.
  abbrev pub last_hash : Option String → List (Row F) → Option String
  last_hash p [] = p
  last_hash p (r ∷ rs) = last_hash (some r.hash) rs

  pub order_by_index-Indexed : (k : ℕ) (t : List (Row F)) → Indexed k t → order_by_index t ≡ t
  unfolding order_by_index
  order_by_index-Indexed k [] h = refl
  order_by_index-Indexed k (r ∷ []) h = refl
  order_by_index-Indexed k (r ∷ (s ∷ rs)) h =
      rw (order_by_index-Indexed (suc k) (s ∷ rs) h.1) (ground arith)

  pub Indexed-append :
      (k : ℕ) (t u : List (Row F)) → Indexed k (t ++ u) ↔ (Indexed k t × Indexed (k + length t) u)
  Indexed-append k [] u = ground arith
  Indexed-append k (r ∷ t) u = ground (arith, Indexed-append (suc k) t u)

module _ {F : Type 0} ⦃js : Runtime F⦄ (sha256 : String → String) where
  -- Row `k` refers to the hash `p`, and its own hash is that of its content.
  pub record IsLinked (k : ℕ) (p : Option String) (r : Row F) : Type 0 where
    pub index : r.chain_index ≡ k
    pub previous : r.previous_hash ≡ p
    pub content : String
    pub readable : content_str r ≡ some content
    pub digest : r.hash ≡ row_hash sha256 p content r

  abbrev pub Chain : ℕ → Option String → List (Row F) → Type 0
  Chain k p [] = Unit
  Chain k p (r ∷ rs) = IsLinked k p r × Chain (suc k) (some r.hash) rs

  pub Chain-Indexed : (k : ℕ) (p : Option String) (t : List (Row F)) → Chain k p t → Indexed k t
  Chain-Indexed k p [] h = tt
  Chain-Indexed k p (r ∷ rs) (l, h) = (l.index, Chain-Indexed (suc k) _ rs h)

  pub Chain-append :
      (k : ℕ) (p : Option String) (t u : List (Row F))
      → Chain k p t
      → {n : ℕ} → n ≡ k + length t
      → Chain n (last_hash p t) u
      → Chain k p (t ++ u)
  Chain-append k p [] u h e c =
      let same : _ ≡ k = omega (arith, e) in subst (λ m. Chain m p u) same c
  Chain-append k p (r ∷ t) u (l, h) e c =
      (l, Chain-append (suc k) (some r.hash) t u h (omega (arith, e)) c)

  pub Chain-split :
      (k n : ℕ) (p : Option String) (t u : List (Row F))
      → n ≡ k + length t
      → Chain k p (t ++ u)
      → Chain k p t × Chain n (last_hash p t) u
  Chain-split k n p [] u e h = let same : n ≡ k = omega (arith, e) in (tt, rw same h)
  Chain-split k n p (r ∷ t) u e (l, h) =
      let (c, d) = Chain-split (suc k) n (some r.hash) t u (omega (arith, e)) h in ((l, c), d)

  check_row-IsLinked :
      (k : ℕ) (p : Option String) (r : Row F) → check_row sha256 k p r ≡ none → IsLinked k p r
  unfolding check_row
  check_row-IsLinked k p r h =
      let linked : r.previous_hash ≡ p = ground (arith, same_hash_iff r.previous_hash p) in
      elim (Option-cases (content_str r)) [
        | inl unread ↦ absurd (ground arith)
        | inr (c, read) ↦ record {
          index = ground arith;
          previous = linked;
          content = c;
          readable = read;
          digest =
              rw (← linked) (ground (arith, eq_iff r.hash (row_hash sha256 r.previous_hash c r)));
        }
      ]

  pub IsLinked-check_row :
      (k : ℕ) (p : Option String) (r : Row F) → IsLinked k p r → check_row sha256 k p r ≡ none
  unfolding check_row
  IsLinked-check_row k p r h = ground (
    arith,
    same_hash_iff r.previous_hash p,
    eq_iff r.hash (row_hash sha256 r.previous_hash h.content r),
  )

  check_row-ne-verified :
      (k : ℕ) (p : Option String) (r : Row F) → check_row sha256 k p r ≢ some verified
  unfolding check_row
  check_row-ne-verified k p r h = ground arith

  pub verify_from_iff :
      (k : ℕ) (p : Option String) (t : List (Row F))
      → (verify_from sha256 k p t ≡ verified) ↔ Chain k p t
  unfolding verify_from
  verify_from_iff k p [] = (λ _. tt, λ _. refl)
  verify_from_iff k p (r ∷ t) = elim (Option-cases (check_row sha256 k p r)) [
    | inl ok ↦ (
      λ h. (
        check_row-IsLinked k p r ok,
        (verify_from_iff (suc k) (some r.hash) t).0 (rw (ok, verify_from) at h),
      ),
      λ h. rw (ok, verify_from) ((verify_from_iff (suc k) (some r.hash) t).1 h.1),
    )
    | inr (v, bad) ↦ (
      λ h. absurd (ground (arith, check_row-ne-verified k p r)),
      λ h. absurd (ground (arith, IsLinked-check_row k p r h.0)),
    )
  ]

  -- `verifyChain` answers `verified` exactly when the rows, in the order of their indices, have the
  -- indices 0, 1, …, each refers to the hash of the row before it (the first to none), and each hash
  -- is the digest of the row's content.
  pub verify_chain_iff :
      (t : List (Row F)) → (verify_chain sha256 t ≡ verified) ↔ Chain 0 none (order_by_index t)
  unfolding verify_chain
  verify_chain_iff t = verify_from_iff 0 none (order_by_index t)

  -- For a table in the order of its indices the sort changes nothing.
  pub verify_chain-Chain : (t : List (Row F)) → Chain 0 none t → verify_chain sha256 t ≡ verified
  verify_chain-Chain t h =
      (verify_chain_iff t).1 (rw (order_by_index-Indexed 0 t (Chain-Indexed 0 none t h)) h)
