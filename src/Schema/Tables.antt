-- ===== src/Schema/Tables.antt =====
-- The validation of NewSchema and its lookup tables, byTag and byName.
use esphome_mpubsub.Base.{ℕ, suc, ◌+◌, ◌≤◌, ◌<◌, ◌≡◌, refl, ap, ◌⊎◌, inl, inr, arith}
use esphome_mpubsub.Base.{true, false, ◌==◌, if◌then◌else◌, List, [], ◌∷◌, length}
use esphome_mpubsub.Base.{
  Bytes, get_elem?, All, Option, none, some, Result, ok, err, ◌=ᵇ◌, Result-cases,
}
use esphome_mpubsub.Base.{=ᵇ_iff}
use native.Mathlib.Nat.{add-zero, zero-add}
use esphome_mpubsub.Base.{Bool-cases}
use esphome_mpubsub.Base.Maps.{nat_eq, bytes_eq, lookup, insert, lookup-insert}
use esphome_mpubsub.Schema.{
  SchemaField, Schema, Kind, kind_of, Lookups, known_key, add_field, add_fields,
}
use esphome_mpubsub.Schema.{new_schema}

-- What NewSchema asks of one field.
pub record IsField (f : SchemaField) : Type 0 where
  pub low : 1 ≤ f.tag
  pub high : f.tag ≤ 536870911
  pub not_reserved : (f.tag < 19000) ⊎ (19999 < f.tag)
  pub typed : (k : Kind) × (kind_of f.typ ≡ some k)

-- The tables after the first `i` fields of `all`.
pub record IsTable (all : List SchemaField) (i : ℕ) (t : Lookups) : Type 0 where
  pub tag_found :
      (j : ℕ) (f : SchemaField) → j < i → get_elem? all j ≡ some f → lookup f.tag t.tags ≡ some j
  pub name_found :
      (j : ℕ) (f : SchemaField) → j < i → get_elem? all j ≡ some f → lookup f.name t.names ≡ some j
  pub tag_exact :
      (n j : ℕ)
      → lookup n t.tags ≡ some j
      → (f : SchemaField) × (get_elem? all j ≡ some f) × (f.tag ≡ n) × (j < i)
  pub name_exact :
      (n : Bytes) (j : ℕ)
      → lookup n t.names ≡ some j
      → (f : SchemaField) × (get_elem? all j ≡ some f) × (f.name ≡ n) × (j < i)

kind_exists : {A : Type 0} (o : Option A) → known_key o ≡ true → (a : A) × (o ≡ some a)
kind_exists none h = cc
kind_exists (some a) h = (a, refl)

-- A field that is taken is valid, and is new to both tables, where it is put.
add_field_ok :
    (i : ℕ) (f : SchemaField) (t u : Lookups)
    → add_field i f t ≡ ok u
    → IsField f
      × (lookup f.tag t.tags ≡ none)
      × (lookup f.name t.names ≡ none)
      × (u.tags ≡ insert f.tag i t.tags)
      × (u.names ≡ insert f.name i t.names)
unfolding add_field
add_field_ok i f t u h = (
  record {
    low = ground arith;
    high = ground arith;
    not_reserved = ground arith;
    typed = kind_exists (kind_of f.typ) (ground arith);
  },
  ground arith,
  ground arith,
  ground arith,
  ground arith,
)

split_lt : (j i : ℕ) → j < i + 1 → (j < i) ⊎ (j ≡ i)
split_lt j i h = ground arith

module _ (all : List SchemaField) (i : ℕ) (f : SchemaField) (t u : Lookups)
    (here : get_elem? all i ≡ some f) (before : IsTable all i t)
    (fresh_tag : lookup f.tag t.tags ≡ none) (fresh_name : lookup f.name t.names ≡ none)
    (tags : u.tags ≡ insert f.tag i t.tags) (names : u.names ≡ insert f.name i t.names) where
  tag_now : (n : ℕ) → lookup n u.tags ≡ (if f.tag == n then some i else lookup n t.tags)
  tag_now n = rw tags (lookup-insert t.tags f.tag n i)

  name_now : (n : Bytes) → lookup n u.names ≡ (if f.name =ᵇ n then some i else lookup n t.names)
  name_now n = rw names (lookup-insert t.names f.name n i)

  same_field : {j : ℕ} {g : SchemaField} → j ≡ i → get_elem? all j ≡ some g → f ≡ g
  same_field new e = cc

  IsTable-add : IsTable all (i + 1) u
  IsTable-add = record {
    tag_found = λ j g lt e. elim (split_lt j i lt) [
      | inl old ↦
          ground (arith, tag_now g.tag, before.tag_found j g old e, ap (λ (x : ℕ). lookup x t.tags))
      | inr new ↦
          let same : f ≡ g = same_field new e in
          ground (arith, tag_now g.tag, ap (λ (x : SchemaField). x.tag) same)
    ];
    name_found = λ j g lt e. elim (split_lt j i lt) [
      | inl old ↦ ground (arith, name_now g.name, before.name_found j g old e, =ᵇ_iff f.name g.name)
      | inr new ↦
          let same : f ≡ g = same_field new e in
          ground
            (arith, name_now g.name, ap (λ (x : SchemaField). x.name) same, =ᵇ_iff f.name g.name)
    ];
    tag_exact = λ n j h. elim (Bool-cases (f.tag == n)) [
      | inl hit ↦
          let at : i ≡ j = ground (arith, tag_now n) in
          (f, rw at at here, ground arith, ground arith)
      | inr miss ↦
          let (g, a, b, c) = before.tag_exact n j (ground (arith, tag_now n)) in
          (g, a, b, omega arith)
    ];
    name_exact = λ n j h. elim (Bool-cases (f.name =ᵇ n)) [
      | inl hit ↦
          let at : i ≡ j = ground (arith, name_now n) in
          (f, rw at at here, (=ᵇ_iff f.name n).0 hit, ground arith)
      | inr miss ↦
          let (g, a, b, c) = before.name_exact n j (ground (arith, name_now n)) in
          (g, a, b, omega arith)
    ];
  }

-- `fs` is what the loop has still to visit of `all`.
abbrev pub Visits : List SchemaField → ℕ → List SchemaField → Type 0
Visits all i fs = (j : ℕ) → get_elem? all (i + j) ≡ get_elem? fs j

next_index : (i j : ℕ) → i + 1 + j ≡ i + suc j
next_index i j = omega arith

pub Visits-next :
    (all : List SchemaField) (i : ℕ) (f : SchemaField) (fs : List SchemaField)
    → Visits all i (f ∷ fs)
    → Visits all (i + 1) fs
Visits-next all i f fs v j = rw (next_index i j) (v (suc j))

err_not_ok : {E A : Type 0} (x : E) (a : A) → ¬ (◌≡◌ {A = Result E A} (err x) (ok a))
err_not_ok x a h = cc

add_fields_ok :
    (all fs : List SchemaField) (i : ℕ) (t u : Lookups)
    → Visits all i fs
    → IsTable all i t
    → add_fields i fs t ≡ ok u
    → IsTable all (i + length fs) u × All IsField fs
unfolding add_fields
add_fields_ok all [] i t u v h e =
    let same : t ≡ u = cc in
    let none_left : i ≡ i + 0 = omega arith in (rw (← same, ← none_left) h, tt)
add_fields_ok all (f ∷ fs) i t u v h e = elim (Result-cases (add_field i f t)) [
  | inl (t', step) ↦
      let (valid, a, b, c, d) = add_field_ok i f t t' step in
      let here : get_elem? all i ≡ some f = rw (add-zero i) at (v 0) in
      let (table, rest) =
        add_fields_ok all fs (i + 1) t' u (Visits-next all i f fs v)
          (IsTable-add all i f t t' here h a b c d) (rw step at e) in
      (rw (next_index i (length fs)) at table, (valid, rest))
  | inr (x, step) ↦ absurd (err_not_ok x u (rw step at e))
]

pub record IsSchema (id : Bytes) (fields : List SchemaField) (s : Schema) : Type 0 where
  pub same_id : s.id ≡ id
  pub same_fields : s.fields ≡ fields
  pub named : (id =ᵇ []) ≡ false
  pub some_field : 1 ≤ length fields
  pub valid : All IsField fields
  pub table : IsTable fields (length fields) (record { tags = s.by_tag; names = s.by_name })

start-IsTable : (all : List SchemaField) → IsTable all 0 (record { tags = []; names = [] })
unfolding lookup
start-IsTable all = record {
  tag_found = λ j f lt e. absurd (omega arith);
  name_found = λ j f lt e. absurd (omega arith);
  tag_exact = λ n j h. cc;
  name_exact = λ n j h. cc;
}

-- A schema that NewSchema returns has a name and a field at least; each field's tag is in
-- 1..536870911 and not in 19000..19999, and its type is one of the ten. Its tables lead each tag
-- and each name to the one field that has it, and nothing else to any field. It keeps the name and
-- the fields that were given.
pub new_schema-IsSchema :
    (id : Bytes) (fields : List SchemaField) (s : Schema)
    → new_schema id fields ≡ ok s
    → IsSchema id fields s
unfolding new_schema
new_schema-IsSchema id [] s h = absurd (ground arith)
new_schema-IsSchema id (f ∷ fs) s h =
    elim (Result-cases (add_fields 0 (f ∷ fs) (record { tags = []; names = [] }))) [
      | inl (t, built) ↦
          let all = f ∷ fs in
          let (table, valid) =
            add_fields_ok all all 0 _ t (λ j. ap (get_elem? all) (zero-add j)) (start-IsTable all)
              built in
          let tags : t.tags ≡ s.by_tag = ground arith in
          let names : t.names ≡ s.by_name = ground arith in
          let same : t ≡ record { tags = s.by_tag; names = s.by_name } =
            λ i. record { tags = tags i; names = names i } in
          record {
            same_id = ground arith;
            same_fields = ground arith;
            named = ground arith;
            some_field = omega arith;
            valid = valid;
            table = rw same at (rw zero-add at table);
          }
      | inr (x, bad) ↦ absurd (ground arith)
    ]
