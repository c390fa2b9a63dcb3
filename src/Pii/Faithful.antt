-- ===== src/Pii/Faithful.antt =====
-- What the walk of apps/api/src/validation/pii/pii.redactor.ts counts, and what it leaves unchanged.
use mini_sentinel.Prelude.{
  ℕ, suc, ◌+◌, String, true, List, [], ◌∷◌, ◌++◌, map, length, length-append, is_empty, ◌≡◌, refl,
  ap, arith, ◌^^◌,
}
use mini_sentinel.Values.Json.{
  Json, null, bool, num, str, arr, obj, Items, nil, cons, Fields, end, field,
}
use mini_sentinel.Values.Runtime.{Runtime}
use mini_sentinel.Pii.Detector.{PiiMatch}
use mini_sentinel.Pii.Redactor.{
  Located, Walked, redact_text, redact_value, redact_items, redact_fields, redact_parameters_local,
  child_path,
}

-- A part of the walk has as many matches as it counts, and where it counts none it is what it was.
pub record IsFaithful {ℓ} {A : Type ℓ} (x : A) (w : Walked A) : Type ℓ where
  pub counted : w.count_ ≡ length w.found
  pub kept : w.count_ ≡ 0 → w.value ≡ x

length-is_empty {ℓ} : {A : Type ℓ} (xs : List A) → length xs ≡ 0 → is_empty xs ≡ true
length-is_empty [] h = refl
length-is_empty (x ∷ xs) h = absurd (omega (arith, h))

length-map {ℓ κ} :
    {A : Type ℓ} {B : Type κ} (f : A → B) (xs : List A) → length (map f xs) ≡ length xs
length-map f [] = refl
length-map f (x ∷ xs) = ap suc (length-map f xs)

IsFaithful-counts {ℓ κ} :
    {A : Type ℓ} {B : Type κ} {x : A} {y : B} {w : Walked A} {ws : Walked B}
    → IsFaithful x w
    → IsFaithful y ws
    → w.count_ + ws.count_ ≡ length (w.found ++ ws.found)
IsFaithful-counts {w} {ws} h hs =
    omega (arith, length-append w.found ws.found, h.counted, hs.counted)

module _ {F : Type 0} ⦃js : Runtime F⦄ (detect : String → List PiiMatch) where
  IsFaithful-kept_text :
      (path s : String)
      → (redact_text {F = F} detect path s).count_ ≡ 0
      → (redact_text {F = F} detect path s).value ≡ str s
  unfolding redact_text
  IsFaithful-kept_text path s h = ground (arith, length-is_empty (detect s))

  IsFaithful-redact_text :
      (path s : String) → IsFaithful {A = Json F} (str s) (redact_text detect path s)
  unfolding redact_text
  IsFaithful-redact_text path s = record {
    counted = ground (
      arith,
      length-map {B = Located} (λ (m : PiiMatch). record { path = path; type = m.type }) (detect s),
    );
    kept = λ h. IsFaithful-kept_text path s h;
  }

  mutual
    unfolding redact_value

    IsFaithful-redact_value :
        (path : String) (v : Json F) → IsFaithful v (redact_value detect path v)
    IsFaithful-redact_value path null = record { counted = refl; kept = λ h. refl }
    IsFaithful-redact_value path (bool b) = record { counted = refl; kept = λ h. refl }
    IsFaithful-redact_value path (num x) = record { counted = refl; kept = λ h. refl }
    IsFaithful-redact_value path (str s) = IsFaithful-redact_text path s
    IsFaithful-redact_value path (arr vs) =
        let w = IsFaithful-redact_items path 0 vs in
        record { counted = w.counted; kept = λ h. ap arr (w.kept h) }
    IsFaithful-redact_value path (obj fs) =
        let w = IsFaithful-redact_fields path fs in
        record { counted = w.counted; kept = λ h. ap obj (w.kept h) }

    IsFaithful-redact_items :
        (path : String) (idx : ℕ) (vs : Items F) → IsFaithful vs (redact_items detect path idx vs)
    IsFaithful-redact_items path idx nil = record { counted = refl; kept = λ h. refl }
    IsFaithful-redact_items path idx (cons v vs) =
        let w = IsFaithful-redact_value (path ^^ "[" ^^ js.show (js.lit idx 0) ^^ "]") v in
        let ws = IsFaithful-redact_items path (suc idx) vs in
        record { counted = IsFaithful-counts w ws; kept = λ h. ground (arith, w.kept, ws.kept) }

    IsFaithful-redact_fields :
        (path : String) (fs : Fields F) → IsFaithful fs (redact_fields detect path fs)
    IsFaithful-redact_fields path end = record { counted = refl; kept = λ h. refl }
    IsFaithful-redact_fields path (field key v fs) =
        let w = IsFaithful-redact_value (child_path path key) v in
        let ws = IsFaithful-redact_fields path fs in
        record { counted = IsFaithful-counts w ws; kept = λ h. ground (arith, w.kept, ws.kept) }

  -- A local redaction that counts no match leaves the parameters as they were.
  pub redact_parameters_local-kept :
      (params : Fields F)
      → (redact_parameters_local detect params).redacted_count ≡ 0
      → (redact_parameters_local detect params).redacted_params ≡ params
  unfolding redact_parameters_local
  redact_parameters_local-kept params h = (IsFaithful-redact_fields "" params).kept h
