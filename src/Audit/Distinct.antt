-- ===== src/Audit/Distinct.antt =====
-- The identifiers of the rows of apps/api/src/audit/audit.service.ts under an update and an added row.
use mini_sentinel.Prelude.{
  String, List, [], ◌∷◌, ◌++◌, map, ◌≡◌, ◌≢◌, sym, ◌∙◌, ap, subst, ◌==◌, Bool-cases, inl, inr,
  arith,
}
use mini_sentinel.Audit.Row.{Row}
use mini_sentinel.Audit.Store.{update}
use mini_sentinel.Audit.Service.{UpdateData, amend}
use mini_sentinel.Audit.Append.{Fresh}
use mini_sentinel.Audit.Content.{bare}
use mini_sentinel.Audit.Heal.Loop.{Distinct}

module _ {F : Type 0} where
  head-bare :
      (r s : Row F) (t u : List (Row F)) → map bare (s ∷ u) ≡ map bare (r ∷ t) → bare s ≡ bare r
  head-bare r s t u same = ap (λ l. elim l [ [] ↦ bare s | q ∷ qs ↦ q ]) same

  tail-bare :
      (r s : Row F) (t u : List (Row F))
      → map bare (s ∷ u) ≡ map bare (r ∷ t)
      → map bare u ≡ map bare t
  tail-bare r s t u same = ap (λ l. elim l [ [] ↦ [] | q ∷ qs ↦ qs ]) same

  Fresh-bare :
      (id : String) (t u : List (Row F)) → map bare u ≡ map bare t → Fresh id t → Fresh id u
  Fresh-bare id t [] same h = tt
  Fresh-bare id [] (s ∷ u) same h = absurd (ground (arith, same))
  Fresh-bare id (r ∷ t) (s ∷ u) same (n, h) = (
    λ e. n (sym (ap (λ q. q.id) (head-bare r s t u same)) ∙ e),
    Fresh-bare id t u (tail-bare r s t u same) h,
  )

  pub Distinct-bare : (t u : List (Row F)) → map bare u ≡ map bare t → Distinct t → Distinct u
  Distinct-bare t [] same h = tt
  Distinct-bare [] (s ∷ u) same h = absurd (ground (arith, same))
  Distinct-bare (r ∷ t) (s ∷ u) same (f, d) =
      let rest = tail-bare r s t u same in
      let named : r.id ≡ s.id = sym (ap (λ q. q.id) (head-bare r s t u same)) in
      (Fresh-bare s.id t u rest (subst (λ i. Fresh i t) named f), Distinct-bare t u rest d)

  Fresh-update :
      (i id : String) (d : UpdateData F) (t : List (Row F))
      → Fresh i t
      → Fresh i (update id (amend d) t)
  unfolding update amend
  Fresh-update i id d [] h = tt
  Fresh-update i id d (r ∷ t) (n, h) = elim (Bool-cases (r.id == id)) [
    | inl e ↦ rw e (n, Fresh-update i id d t h)
    | inr e ↦ rw e (n, Fresh-update i id d t h)
  ]

  pub Distinct-update :
      (id : String) (d : UpdateData F) (t : List (Row F))
      → Distinct t
      → Distinct (update id (amend d) t)
  unfolding update amend
  Distinct-update id d [] h = tt
  Distinct-update id d (r ∷ t) (f, h) = elim (Bool-cases (r.id == id)) [
    | inl e ↦ rw e (Fresh-update r.id id d t f, Distinct-update id d t h)
    | inr e ↦ rw e (Fresh-update r.id id d t f, Distinct-update id d t h)
  ]

  Fresh-snoc :
      (id : String) (t : List (Row F)) (r : Row F) → Fresh id t → r.id ≢ id → Fresh id (t ++ r ∷ [])
  Fresh-snoc id [] r h n = (n, tt)
  Fresh-snoc id (q ∷ t) r (m, h) n = (m, Fresh-snoc id t r h n)

  pub Distinct-snoc :
      (t : List (Row F)) (r : Row F) → Distinct t → Fresh r.id t → Distinct (t ++ r ∷ [])
  Distinct-snoc [] r d h = (tt, tt)
  Distinct-snoc (q ∷ t) r (f, d) (n, h) =
      (Fresh-snoc q.id t r f (λ e. n (sym e)), Distinct-snoc t r d h)
