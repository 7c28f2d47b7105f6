-- ===== src/Json/Keys.antt =====
-- The keys that JSONToProto refuses.
use native.Mathlib.Nat.{zero-add, add-zero}
use esphome_mpubsub.Base.{
  ℕ, zero, suc, ◌+◌, ◌≡◌, ◌≢◌, ◌↔◌, refl, ap, sym, ◌∙◌, arith, Bool, true, false, ◌||◌,
  if◌then◌else◌, Bool-cases, Option-cases, inl, inr,
}
use esphome_mpubsub.Base.{
  List, [], ◌∷◌, Bytes, length, ◌=ᵇ◌, =ᵇ_iff, get_elem?, Option, none, some, Result, ok, err, ◌>>=◌,
  Result-cases,
}
use esphome_mpubsub.Base.Maps.{bytes_eq, lookup}
use esphome_mpubsub.Schema.{Schema, SchemaField, new_schema}
use esphome_mpubsub.Schema.Tables.{IsSchema, Visits, Visits-next, new_schema-IsSchema}
use esphome_mpubsub.Proto.Value.{Any, Floats}
use esphome_mpubsub.Proto.Encode.{encode_proto}
use esphome_mpubsub.Json.{
  JsonLib, JsonError, unknown_field, from_proto, field_at, json_value_to_go, check_keys, prepare,
  json_to_proto,
}

abbrev pub has_name : List SchemaField → Bytes → Bool
has_name [] k = false
has_name (f ∷ fs) k = (f.name =ᵇ k) || has_name fs k

-- The first key that is the name of no field.
abbrev pub first_unknown : List SchemaField → List (Bytes × Any) → Option Bytes
first_unknown fields [] = none
first_unknown fields ((k, v) ∷ rest) =
    let next = first_unknown fields rest in if has_name fields k then next else some k

module _ (id : Bytes) (all : List SchemaField) (s : Schema) (schema : IsSchema id all s) where
  name_listed :
      (i : ℕ) (fs : List SchemaField) (k : Bytes)
      → i + length fs ≡ length all
      → Visits all i fs
      → has_name fs k ≡ true
      → (j : ℕ) × (lookup k s.by_name ≡ some j)
  name_listed i [] k n v h = cc
  name_listed i (f ∷ fs) k n v h = elim (Bool-cases (f.name =ᵇ k)) [
    | inl hit ↦
        let here : get_elem? all i ≡ some f = rw (add-zero i) at (v 0) in
        (
          i,
          ap (λ (x : Bytes). lookup x s.by_name) (sym ((=ᵇ_iff f.name k).0 hit))
              ∙ schema.table.name_found i f (omega arith) here,
        )
    | inr miss ↦ name_listed (i + 1) fs k (omega arith) (Visits-next all i f fs v) (ground arith)
  ]

  known_name : (k : Bytes) → has_name all k ≡ true → (j : ℕ) × (lookup k s.by_name ≡ some j)
  known_name k = name_listed 0 all k (omega arith) (λ j. ap (get_elem? all) (zero-add j))

has_name_at :
    (fs : List SchemaField) (f : SchemaField) (j : ℕ)
    → get_elem? fs j ≡ some f
    → has_name fs f.name ≡ true
has_name_at [] f j e = cc
has_name_at (g ∷ fs) f zero e =
    let same : g ≡ f = ground arith in
    let hit = (=ᵇ_iff g.name f.name).1 (ap (λ (x : SchemaField). x.name) same) in ground arith
has_name_at (g ∷ fs) f (suc j) e = ground (arith, has_name_at fs f j e)

module _ (id : Bytes) (all : List SchemaField) (s : Schema) (schema : IsSchema id all s) where
  unknown_name : (k : Bytes) → has_name all k ≡ false → lookup k s.by_name ≡ none
  unknown_name k e = elim (Option-cases (lookup k s.by_name)) [
    | inl gone ↦ gone
    | inr (j, found) ↦
        let (f, at, named, lt) = schema.table.name_exact k j found in
        let listed = has_name_at all f j at in absurd (ground (arith, ap (has_name all) named))
  ]

  -- What the first loop over the keys returns.
  abbrev refused : Option Bytes → Result JsonError (Unit {0})
  refused none = ok tt
  refused (some k) = err (unknown_field s.id k)

  check_keys_lem :
      (lib : JsonLib) (raw : List (Bytes × Any))
      → check_keys lib s raw ≡ refused (first_unknown all raw)
  unfolding check_keys
  check_keys_lem lib [] = refl
  check_keys_lem lib ((k, v) ∷ rest) = elim (Bool-cases (has_name all k)) [
    | inl known ↦
        let (j, found) = known_name id all s schema k known in
        rw (check_keys, found, known) (check_keys_lem lib rest)
    | inr unknown ↦ rw (check_keys, unknown_name k unknown, unknown) refl
  ]

module _ (fl : Floats) (lib : JsonLib) where
  prepare_known :
      (s : Schema) (raw : List (Bytes × Any)) (a k : Bytes)
      → prepare lib s raw ≢ err (unknown_field a k)
  unfolding prepare
  prepare_known s [] a k e = cc
  prepare_known s ((name, v) ∷ rest) a k e =
      elim (Result-cases (json_value_to_go lib (field_at s name) v)) [
        | inr (x, bad) ↦ ground arith
        | inl (c, made) ↦ elim (Result-cases (prepare lib s rest)) [
          | inr (x, bad) ↦ ground (arith, prepare_known s rest a k)
          | inl (p, done) ↦ ground arith
        ]
      ]

  rest_known :
      (s : Schema) (raw : List (Bytes × Any)) (a k : Bytes)
      → (prepare lib s raw >>= λ (p : List (Bytes × Any)). from_proto (encode_proto fl s p))
        ≢ err (unknown_field a k)
  rest_known s raw a k e = elim (Result-cases (prepare lib s raw)) [
    | inr (x, bad) ↦ ground (arith, prepare_known s raw a k)
    | inl (p, done) ↦ elim (Result-cases (encode_proto fl s p)) [
      | inr (x, bad) ↦ ground arith
      | inl (b, wrote) ↦ ground arith
    ]
  ]

  -- In a schema that NewSchema made, JSONToProto refuses an object for an unknown field exactly
  -- where the object has a key that is no field's name, and names the first such key, in the order
  -- that Go picks.
  pub json_to_proto_unknown :
      (id : Bytes) (fields : List SchemaField) (s : Schema) (body k : Bytes)
      (raw : List (Bytes × Any))
      → new_schema id fields ≡ ok s
      → lib.unmarshal body ≡ some raw
      → (json_to_proto lib fl s body ≡ err (unknown_field s.id k))
        ↔ (first_unknown fields raw ≡ some k)
  unfolding json_to_proto
  json_to_proto_unknown id fields s body k raw made parsed =
      let schema = new_schema-IsSchema id fields s made in
      let checked = check_keys_lem id fields s schema lib raw in
      elim (Option-cases (first_unknown fields raw)) [
        | inl all_known ↦
            let passed : check_keys lib s raw ≡ ok tt = ground arith in
            (
              λ e.
                  absurd
                    (rest_known s raw s.id k (sym (rw (json_to_proto, parsed, passed) refl) ∙ e)),
              λ e. absurd (ground arith),
            )
        | inr (k', bad) ↦
            let stopped : check_keys lib s raw ≡ err (unknown_field s.id k') = ground arith in
            ground arith
      ]
