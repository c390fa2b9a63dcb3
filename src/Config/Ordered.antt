-- ===== src/Config/Ordered.antt =====
-- The order of `rulesCache` (apps/api/src/config/configuration.service.ts): sorted by priority, and a
-- permutation of the enabled rules.
use mathlib.Core.List.{Perm}
use mathlib.Core.List.Perm
use mini_sentinel.Prelude.{ℕ, ◌≤◌, List, [], ◌∷◌, All, arith, leb, Bool-cases, inl, inr}
use mini_sentinel.Config.Rows.{StoredRule}
use mini_sentinel.Config.Store.{Service, insert_by_priority, order_by_priority, enabled_stored}
use mini_sentinel.Config.Invariant.{IsRunning, running-IsConsistent}
use mini_sentinel.Values.Runtime.{Runtime}

module _ {F : Type 0} where
  -- No rule has a lower priority number than one before it.
  abbrev pub IsByPriority : List (StoredRule F) → Type 0
  IsByPriority [] = Unit
  IsByPriority (r ∷ rs) = All (λ s. r.rule.priority ≤ s.rule.priority) rs × IsByPriority rs

  All-insert_by_priority :
      (k : ℕ) (r : StoredRule F) (rs : List (StoredRule F))
      → k ≤ r.rule.priority
      → All (λ s. k ≤ s.rule.priority) rs
      → All (λ s. k ≤ s.rule.priority) (insert_by_priority r rs)
  unfolding insert_by_priority
  All-insert_by_priority k r [] h hs = (h, tt)
  All-insert_by_priority k r (s ∷ rs) h (hn, hs) =
      elim (Bool-cases (leb r.rule.priority s.rule.priority)) [
        | inl e ↦ rw e (h, (hn, hs))
        | inr e ↦ rw e (hn, All-insert_by_priority k r rs h hs)
      ]

  All-weaken :
      (j k : ℕ) (rs : List (StoredRule F))
      → k ≤ j
      → All (λ s. j ≤ s.rule.priority) rs
      → All (λ s. k ≤ s.rule.priority) rs
  All-weaken j k [] h hs = tt
  All-weaken j k (r ∷ rs) h (hr, hs) = (omega (arith, hr, h), All-weaken j k rs h hs)

  insert-IsByPriority :
      (r : StoredRule F) (rs : List (StoredRule F))
      → IsByPriority rs
      → IsByPriority (insert_by_priority r rs)
  unfolding insert_by_priority
  insert-IsByPriority r [] h = (tt, tt)
  insert-IsByPriority r (s ∷ rs) (hs, h) = elim (Bool-cases (leb r.rule.priority s.rule.priority)) [
    | inl e ↦
        let below : r.rule.priority ≤ s.rule.priority = ground (arith, e) in
        rw e ((below, All-weaken s.rule.priority r.rule.priority rs below hs), (hs, h))
    | inr e ↦
        let above : s.rule.priority ≤ r.rule.priority = ground (arith, e) in
        rw e (All-insert_by_priority s.rule.priority r rs above hs, insert-IsByPriority r rs h)
  ]

  pub order-IsByPriority : (rs : List (StoredRule F)) → IsByPriority (order_by_priority rs)
  unfolding order_by_priority
  order-IsByPriority [] = tt
  order-IsByPriority (r ∷ rs) = insert-IsByPriority r (order_by_priority rs) (order-IsByPriority rs)

  insert_by_priority-Perm :
      (r : StoredRule F) (rs : List (StoredRule F)) → Perm (insert_by_priority r rs) (r ∷ rs)
  unfolding insert_by_priority
  insert_by_priority-Perm r [] = Perm.refl (r ∷ [])
  insert_by_priority-Perm r (s ∷ rs) = elim (Bool-cases (leb r.rule.priority s.rule.priority)) [
    | inl e ↦ rw e (Perm.refl (r ∷ (s ∷ rs)))
    | inr e ↦ rw e (Perm.trans (Perm.cons s (insert_by_priority-Perm r rs)) (Perm.swap r s rs))
  ]

  pub order_by_priority-Perm : (rs : List (StoredRule F)) → Perm (order_by_priority rs) rs
  unfolding order_by_priority
  order_by_priority-Perm [] = Perm.refl []
  order_by_priority-Perm (r ∷ rs) =
      Perm.trans (insert_by_priority-Perm r (order_by_priority rs))
        (Perm.cons r (order_by_priority-Perm rs))

module _ {F : Type 0} ⦃js : Runtime F⦄ where
  -- Once the service has started, and whatever calls follow, the rules that it hands out are sorted by
  -- priority, and they are the stored rules that are enabled, each as often as it is stored.
  pub running-ordered :
      (s : Service F)
      → IsRunning s
      → IsByPriority s.rules_cache × Perm s.rules_cache (enabled_stored s.rules)
  running-ordered s running =
      let good = running-IsConsistent s running in
      let rs = enabled_stored s.rules in
      rw good.cached (order-IsByPriority rs, order_by_priority-Perm rs)
