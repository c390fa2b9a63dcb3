-- ===== src/Values/Json.antt =====
-- Values of the source's `any`, as they come out of JSON: the parameters of a request, the values of
-- rules and settings, the results of checks. `undefined` is the `none` of an `Option`. The type is
-- generic in the numbers, which are IEEE doubles in the source.
use mini_sentinel.Prelude.{
  String, Bool, Option, none, some, List, [], ◌∷◌, if◌then◌else◌, ◌==◌, ◌≡◌, refl, eq_iff, arith,
}

mutual
  pub data Json (F : Type 0) : Type 0 where
    null : Json F
    bool : Bool → Json F
    num : F → Json F
    str : String → Json F
    arr : Items F → Json F
    obj : Fields F → Json F

  pub data Items (F : Type 0) : Type 0 where
    nil : Items F
    cons : Json F → Items F → Items F

  pub data Fields (F : Type 0) : Type 0 where
    end : Fields F
    field : String → Json F → Fields F → Fields F

module _ {F : Type 0} where
  -- `o.key`, for a key that no built-in object has
  unfoldable pub get : String → Fields F → Option (Json F)
  get key end = none
  get key (field k v fs) = if k == key then some v else get key fs

  -- `o.key = v`
  unfoldable pub set : String → Json F → Fields F → Fields F
  set key v end = field key v end
  set key v (field k w fs) = if k == key then field k v fs else field k w (set key v fs)

  -- A write is read back, and no other key is touched.
  pub get-set :
      (j k : String) (v : Json F) (fs : Fields F)
      → get j (set k v fs) ≡ (if k == j then some v else get j fs)
  unfolding get set
  get-set j k v end = refl
  get-set j k v (field i w fs) =
      ground (arith, eq_iff i k, eq_iff i j, eq_iff k j, get-set j k v fs)

  abbrev pub items : Items F → List (Json F)
  items nil = []
  items (cons v vs) = v ∷ items vs

  abbrev pub of_list : List (Json F) → Items F
  of_list [] = nil
  of_list (v ∷ vs) = cons v (of_list vs)

  -- An object literal; a property that is `undefined` is not printed.
  unfoldable pub object : List (String × Option (Json F)) → Fields F
  object [] = end
  object ((k, none) ∷ kvs) = object kvs
  object ((k, some v) ∷ kvs) = field k v (object kvs)

  -- An object literal whose properties are all there.
  abbrev pub fields_of : List (String × Json F) → Fields F
  fields_of [] = end
  fields_of ((k, v) ∷ kvs) = field k v (fields_of kvs)
