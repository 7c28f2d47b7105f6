-- ===== src/Json/Prepared.antt =====
-- The maps that JSONToProto and ProtoToJSON make, key by key.
use mathlib.Core.Path.{subst}
use native.Mathlib.Nat.{add-zero}
use esphome_mpubsub.Base.{ℕ, ◌+◌, ◌≡◌, refl, ap, ◌∙◌, arith, Bool-cases, inl, inr}
use esphome_mpubsub.Base.{
  List, [], ◌∷◌, Bytes, length, All, ◌=ᵇ◌, =ᵇ_iff, get_elem?, Option, none, some, ok, Result-cases,
}
use esphome_mpubsub.Base.Maps.{bytes_eq, lookup}
use esphome_mpubsub.Schema.{Schema, SchemaField}
use esphome_mpubsub.Schema.Tables.{IsSchema, Visits, Visits-next}
use esphome_mpubsub.Proto.Value.{Any}
use esphome_mpubsub.Json.{
  JsonLib, field_at, field_or_none, index_or_zero, json_value_to_go, prepare, go_value_to_json,
  to_json_values,
}

abbrev pub map_option {ℓ κ} : {A : Type ℓ} {B : Type κ} → (A → B) → Option A → Option B
map_option f none = none
map_option f (some a) = some (f a)

module _ (id : Bytes) (all : List SchemaField) (s : Schema) (schema : IsSchema id all s) where
  pub field_at_name :
      (i : ℕ) (fs : List SchemaField)
      → i + length fs ≡ length all
      → Visits all i fs
      → All (λ f. field_at s f.name ≡ f) fs
  unfolding field_at
  field_at_name i [] n v = tt
  field_at_name i (f ∷ fs) n v =
      let here : get_elem? all i ≡ some f = rw (add-zero i) at (v 0) in
      let found = schema.table.name_found i f (omega arith) here in
      (
        ap (λ (o : Option ℕ). field_or_none (get_elem? s.fields (index_or_zero o))) found
            ∙ ap (λ (l : List SchemaField). field_or_none (get_elem? l i)) schema.same_fields
            ∙ ap field_or_none here,
        field_at_name (i + 1) fs (omega arith) (Visits-next all i f fs v),
      )

module _ (lib : JsonLib) where
  -- What a key leads to before and after the coercion.
  abbrev pub IsPrepared : SchemaField → Option Any → Option Any → Type 0
  IsPrepared f none none = Unit {0}
  IsPrepared f (some v) (some v') = json_value_to_go lib f v ≡ ok v'
  IsPrepared f none (some v') = ⊥
  IsPrepared f (some v) none = ⊥

module _ (lib : JsonLib) (s : Schema) where
  pub prepare-IsPrepared :
      (raw prepared : List (Bytes × Any)) (key : Bytes)
      → prepare lib s raw ≡ ok prepared
      → IsPrepared lib (field_at s key) (lookup key raw) (lookup key prepared)
  unfolding prepare lookup
  prepare-IsPrepared [] [] key e = tt
  prepare-IsPrepared [] (x ∷ xs) key e = cc
  prepare-IsPrepared ((k, v) ∷ rest) prepared key e =
      elim (Result-cases (json_value_to_go lib (field_at s k) v)) [
        | inr (x, bad) ↦ absurd (ground arith)
        | inl (v', good) ↦ elim (Result-cases (prepare lib s rest)) [
          | inr (x, bad) ↦ absurd (ground arith)
          | inl (rest', done) ↦
              let same : (k, v') ∷ rest' ≡ prepared = ground arith in
              subst
                (λ (p : List (Bytes × Any)).
                  IsPrepared lib (field_at s key) (lookup key ((k, v) ∷ rest)) (lookup key p))
                same
                (elim (Bool-cases (k =ᵇ key)) [
                  | inl hit ↦ rw hit (
                      subst (λ (n : Bytes). json_value_to_go lib (field_at s n) v ≡ ok v')
                        ((=ᵇ_iff k key).0 hit) good)
                  | inr miss ↦ rw miss (prepare-IsPrepared rest rest' key done)
                ])
        ]
      ]

  pub lookup-to_json_values :
      (out : List (Bytes × Any)) (key : Bytes)
      → lookup key (to_json_values lib s out)
        ≡ map_option (go_value_to_json lib (field_at s key)) (lookup key out)
  unfolding to_json_values lookup
  lookup-to_json_values [] key = refl
  lookup-to_json_values ((k, v) ∷ rest) key = elim (Bool-cases (k =ᵇ key)) [
    | inl hit ↦
        rw hit
          (ap (λ (n : Bytes). some (go_value_to_json lib (field_at s n) v)) ((=ᵇ_iff k key).0 hit))
    | inr miss ↦ rw miss (lookup-to_json_values rest key)
  ]
