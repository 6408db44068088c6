-- ===== src/Json/Fields.antt =====
-- encoding/json on a struct: which field a key names, and what an object leaves in the fields. A field
-- is a constructor of a type `F`, a struct a record `R`, and `store` puts a value into a field.
use package.text.Mathlib.Text.{◌==◌ as str_eq}
use investment_engine.Prelude.{
  String, Bool, List, [], ◌∷◌, Option, none, some, if◌then◌else◌, ◌≡◌, ◌≢◌, refl, ap,
}
use investment_engine.Result.{Result, ok, err, ◌>>=◌}
use investment_engine.Json.{Json, Object}

abbrev pub or_else {ℓ} : {F : Type ℓ} → Option F → Option F → Option F
or_else (some f) g = some f
or_else none g = g

module _ {F : Type 0} where
  abbrev pub first_match : (String → Bool) → List (String × F) → Option F
  first_match test [] = none
  first_match test ((name, f) ∷ rest) =
      let later = first_match test rest in if test name then some f else later

  -- The field that a key names, among those with these names: the one of exactly this name, or else
  -- the first one that has it up to the case of letters, which `folds` decides.
  unfoldable pub field_of : (String → String → Bool) → List (String × F) → String → Option F
  field_of folds names key =
      or_else (first_match (str_eq key) names) (first_match (folds key) names)

  module _ {R : Type 0} (store : F → Json → R → Result R) where
    -- A key that names no field is skipped.
    abbrev pub store_at : Option F → Json → R → Result R
    store_at none v r = ok r
    store_at (some f) v r = store f v r

    unfoldable pub read_fields :
        (String → String → Bool) → List (String × F) → Object → R → Result R
    unfolding field_of
    read_fields folds names [] r = ok r
    read_fields folds names ((k, v) ∷ rest) r =
        store_at (field_of folds names k) v r >>= read_fields folds names rest

  -- No member of the object names the field.
  abbrev pub IsMissing : (String → String → Bool) → List (String × F) → F → Object → Type 0
  IsMissing folds names f [] = Unit
  IsMissing folds names f ((k, v) ∷ rest) =
      (field_of folds names k ≢ some f) × IsMissing folds names f rest

  module _ {R : Type 0} (store : F → Json → R → Result R) (f : F) (P : R → Type 0)
      (others : (g : F) (v : Json) (r r' : R) → g ≢ f → P r → store g v r ≡ ok r' → P r') where
    store_at-keeps :
        (g : Option F) (v : Json) (r r' : R)
        → g ≢ some f
        → P r
        → store_at store g v r ≡ ok r'
        → P r'
    store_at-keeps none v r r' other p h = let same : r ≡ r' = cc in rw (← same) p
    store_at-keeps (some g) v r r' other p h = others g v r r' (λ same. other (ap some same)) p h

    -- What only the members of one field can change, an object without this field keeps.
    pub read_fields-keeps :
        (folds : String → String → Bool) (names : List (String × F)) (object : Object) (r r' : R)
        → IsMissing folds names f object
        → P r
        → read_fields store folds names object r ≡ ok r'
        → P r'
    unfolding read_fields
    read_fields-keeps folds names [] r r' m p h = let same : r ≡ r' = cc in rw (← same) p
    read_fields-keeps folds names ((k, v) ∷ rest) r r' (other, m) p h =
        let g = field_of folds names k in
        elim (store_at store g v r)
            as (λ s.
              store_at store g v r ≡ s
              → (s >>= read_fields store folds names rest) ≡ ok r'
              → P r') [
                | ok r1 ↦ λ s h'.
                    read_fields-keeps folds names rest r1 r' m (store_at-keeps g v r r1 other p s)
                      h'
                | err _ ↦ λ s h'. absurd cc
              ]
          refl h

-- What a store into a field does once the value is read.
pub after_bind {ℓ κ} :
    {A : Type ℓ} {R : Type κ} (r : Result A) (make : A → R) (e : R)
    → (r >>= λ x. ok (make x)) ≡ ok e
    → (x : A) × (e ≡ make x)
after_bind (ok a) make e h = (a, cc)
after_bind (err _) make e h = absurd cc
