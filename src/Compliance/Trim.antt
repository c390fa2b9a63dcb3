-- ===== src/Compliance/Trim.antt =====
-- The trimmed texts that `evaluateOFAC` of apps/api/src/validation/compliance/rule.engine.ts compares.
use mathlib.Core.List.{reverse-append, reverse-cons}
use mini_sentinel.Prelude.{
  ℕ, Bool, true, not, List, [], ◌∷◌, ◌++◌, reverse, any, any-append, append_assoc, append-nil, ◌≡◌,
  refl, sym, ◌∙◌, ap, Bool-cases, inl, inr, arith, is_prefix, includes,
}
use mini_sentinel.Compliance.Checkers.{is_space, drop_spaces}

-- The first list stands somewhere in the second.
abbrev pub IsInfix : List ℕ → List ℕ → Type 0
IsInfix p q = (a : List ℕ) × (b : List ℕ) × (q ≡ a ++ (p ++ b))

-- There are only spaces.
abbrev pub is_blank : List ℕ → Bool
is_blank s = not (any (λ c. not (is_space c)) s)

is_prefix-append : (p b : List ℕ) → is_prefix p (p ++ b) ≡ true
unfolding is_prefix
is_prefix-append [] b = refl
is_prefix-append (c ∷ p) b = ground (arith, is_prefix-append p b)

includes-append : (a p b : List ℕ) → includes (a ++ (p ++ b)) p ≡ true
unfolding includes is_prefix
includes-append [] [] [] = refl
includes-append [] [] (c ∷ b) = refl
includes-append [] (c ∷ p) b = ground (arith, is_prefix-append p b)
includes-append (c ∷ a) p b = ground (arith, includes-append a p b)

drop_spaces-split : (s : List ℕ) → (sp : List ℕ) × (s ≡ sp ++ drop_spaces s)
unfolding drop_spaces
drop_spaces-split [] = ([], refl)
drop_spaces-split (c ∷ s) = elim (Bool-cases (is_space c)) [
  | inl e ↦ let (sp, split) = drop_spaces-split s in rw e (c ∷ sp, ap (λ t. c ∷ t) split)
  | inr e ↦ rw e ([], refl)
]

drop_spaces-before : (x v : List ℕ) → (b : List ℕ) × (drop_spaces (x ++ v) ≡ drop_spaces x ++ b)
unfolding drop_spaces
drop_spaces-before [] v = (drop_spaces v, refl)
drop_spaces-before (c ∷ x) v = elim (Bool-cases (is_space c)) [
  | inl e ↦ rw e (drop_spaces-before x v)
  | inr e ↦ rw e (v, refl)
]

drop_spaces-IsInfix : (u x v : List ℕ) → IsInfix (drop_spaces x) (drop_spaces (u ++ (x ++ v)))
unfolding drop_spaces
drop_spaces-IsInfix [] x v = let (b, e) = drop_spaces-before x v in ([], b, e)
drop_spaces-IsInfix (c ∷ u) x v = elim (Bool-cases (is_space c)) [
  | inl e ↦ rw e (drop_spaces-IsInfix u x v)
  | inr e ↦
      let (sp, split) = drop_spaces-split x in
      rw e (
        c ∷ (u ++ sp),
        v,
        ap (λ t. c ∷ (u ++ (t ++ v))) split
            ∙ ap (λ t. c ∷ (u ++ t)) (append_assoc sp (drop_spaces x) v)
            ∙ ap (λ t. c ∷ t) (sym (append_assoc u sp (drop_spaces x ++ v))),
      )
]

reverse-IsInfix : (p q : List ℕ) → IsInfix p q → IsInfix (reverse p) (reverse q)
reverse-IsInfix p q (a, b, e) = (
  reverse b,
  reverse a,
  ap reverse e
      ∙ reverse-append a (p ++ b)
      ∙ ap (λ t. t ++ reverse a) (reverse-append p b)
      ∙ append_assoc (reverse b) (reverse p) (reverse a),
)

step-IsInfix : (p q : List ℕ) → IsInfix p q → IsInfix (drop_spaces p) (drop_spaces q)
step-IsInfix p q (a, b, e) = rw e (drop_spaces-IsInfix a p b)

-- `s.trim()`
abbrev pub trim : List ℕ → List ℕ
trim s = reverse (drop_spaces (reverse (drop_spaces s)))

pub trim-IsInfix : (p q : List ℕ) → IsInfix p q → IsInfix (trim p) (trim q)
trim-IsInfix p q h =
    reverse-IsInfix _ _ (step-IsInfix _ _ (reverse-IsInfix _ _ (step-IsInfix p q h)))

blank-drop_spaces : (s x : List ℕ) → is_blank s ≡ true → drop_spaces (s ++ x) ≡ drop_spaces x
unfolding drop_spaces
blank-drop_spaces [] x h = refl
blank-drop_spaces (c ∷ s) x h = ground (arith, h, blank-drop_spaces s x (ground (arith, h)))

drop_spaces-blank :
    (x s : List ℕ)
    → is_blank s ≡ true
    → (b : List ℕ) × (drop_spaces (x ++ s) ≡ drop_spaces x ++ b) × (is_blank b ≡ true)
unfolding drop_spaces
drop_spaces-blank [] s h =
    ([], ap drop_spaces (sym (append-nil s)) ∙ blank-drop_spaces s [] h, refl)
drop_spaces-blank (c ∷ x) s h = elim (Bool-cases (is_space c)) [
  | inl e ↦ rw e (drop_spaces-blank x s h)
  | inr e ↦ rw e (s, refl, h)
]

blank-reverse : (s : List ℕ) → is_blank s ≡ true → is_blank (reverse s) ≡ true
blank-reverse [] h = refl
blank-reverse (c ∷ s) h =
    ap is_blank (reverse-cons c s)
    ∙ ap not (any-append (λ d. not (is_space d)) (reverse s) (c ∷ []))
    ∙ ground (arith, h, blank-reverse s (ground (arith, h)))

-- Spaces around a text do not matter to its trimmed form.
pub trim-blank :
    (s x t : List ℕ) → is_blank s ≡ true → is_blank t ≡ true → trim (s ++ (x ++ t)) ≡ trim x
trim-blank s x t hs ht =
    let (b, e, h) = drop_spaces-blank x t ht in
    ap (λ y. reverse (drop_spaces (reverse y))) (blank-drop_spaces s (x ++ t) hs ∙ e)
    ∙ ap (λ y. reverse (drop_spaces y)) (reverse-append (drop_spaces x) b)
    ∙ ap reverse (blank-drop_spaces (reverse b) (reverse (drop_spaces x)) (blank-reverse b h))

pub includes-IsInfix : (p q : List ℕ) → IsInfix p q → includes q p ≡ true
includes-IsInfix p q (a, b, e) = ap (λ y. includes y p) e ∙ includes-append a p b
