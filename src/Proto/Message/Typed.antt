-- ===== src/Proto/Message/Typed.antt =====
-- The values that DecodeProto returns, whatever the body is.
use mathlib.Core.Path.{subst}
use native.Mathlib.Nat.{zero-add, add-zero}
use esphome_mpubsub.Base.{
  ℕ, zero, suc, ◌+◌, ◌/◌, ◌%◌, ◌^◌, ◌≤◌, ◌<◌, ◌≡◌, ◌≢◌, refl, ap, sym, ◌∙◌, arith, true, false,
  bit_and, Bool-cases, Option-cases, Result-cases, inl, inr,
}
use esphome_mpubsub.Base.{
  List, [], ◌∷◌, ◌++◌, Bytes, length, length-append, drop, get_elem?, All, ◌=ᵇ◌, =ᵇ_iff, Option,
  none, some, ok,
}
use esphome_mpubsub.Base.Maps.{nat_eq, bytes_eq, lookup}
use esphome_mpubsub.Schema.{Schema, SchemaField, Kind, new_schema}
use esphome_mpubsub.Schema.Tables.{IsField, IsSchema, Visits, Visits-next, new_schema-IsSchema}
use esphome_mpubsub.Proto.Varint.{read_varint}
use esphome_mpubsub.Proto.Value.{Scalar, Any, one, many, Floats, decode_value}
use esphome_mpubsub.Proto.Value.Typed.{IsOfKind, decode_value-IsOfKind}
use esphome_mpubsub.Proto.Decode.{
  list_of, store, skip_field, known_field, decode_field, decode_loop, decode_proto,
}
use esphome_mpubsub.Proto.Decode.Total.{decode_loop_round}
use esphome_mpubsub.Proto.Message.{kind_at, kind_at_typed}
use esphome_mpubsub.Proto.Message.Stored.{
  IsFresh, Out, lookup-store_one, lookup-store_many, lookup-store_other,
}

-- A value of a field: one of its type, or a list of them, with an element at least, where the
-- field is repeated.
abbrev pub IsValueOf : SchemaField → Option Any → Type 0
IsValueOf f none = Unit {0}
IsValueOf f (some (one sc)) = (f.repeated ≡ false) × IsOfKind (kind_at f) sc
IsValueOf f (some (many xs)) = (f.repeated ≡ true) × (1 ≤ length xs) × All (IsOfKind (kind_at f)) xs

append-All :
    (k : Kind) (xs : List Scalar) (sc : Scalar)
    → All (IsOfKind k) xs
    → IsOfKind k sc
    → All (IsOfKind k) (xs ++ sc ∷ [])
append-All k [] sc h e = (e, tt)
append-All k (x ∷ xs) sc (h, hs) e = (h, append-All k xs sc hs e)

get_elem?-lt :
    (fs : List SchemaField) (i : ℕ) (f : SchemaField) → get_elem? fs i ≡ some f → i < length fs
get_elem?-lt [] i f e = cc
get_elem?-lt (g ∷ fs) zero f e = omega arith
get_elem?-lt (g ∷ fs) (suc i) f e = omega (arith, get_elem?-lt fs i f e)

get_elem?-All :
    (fs : List SchemaField) (i : ℕ) (f : SchemaField)
    → get_elem? fs i ≡ some f
    → All IsField fs
    → IsField f
get_elem?-All [] i f e h = cc
get_elem?-All (g ∷ fs) zero f e (h, hs) = let own : g ≡ f = ground arith in subst IsField own h
get_elem?-All (g ∷ fs) (suc i) f e (h, hs) = get_elem?-All fs i f e hs

get_elem?-IsFresh :
    (fs : List SchemaField) (i : ℕ) (f : SchemaField) (name : Bytes)
    → get_elem? fs i ≡ some f
    → IsFresh name fs
    → f.name ≢ name
get_elem?-IsFresh [] i f name e h = cc
get_elem?-IsFresh (g ∷ fs) zero f name e (h, hs) =
    λ same. let own : g ≡ f = ground arith in h (ap (λ (x : SchemaField). x.name) own ∙ same)
get_elem?-IsFresh (g ∷ fs) (suc i) f name e (h, hs) = get_elem?-IsFresh fs i f name e hs

module _ (id : Bytes) (fields : List SchemaField) (s : Schema) (schema : IsSchema id fields s) where
  -- What is stored so far.
  record IsStored (out : List (Bytes × Any)) : Type 0 where
    typed :
        (j : ℕ) (h : SchemaField) → get_elem? fields j ≡ some h → IsValueOf h (lookup h.name out)
    fresh : (name : Bytes) → IsFresh name fields → lookup name out ≡ none

  snoc_all :
      (f : SchemaField) (v : Option Any) (sc : Scalar)
      → IsValueOf f v
      → f.repeated ≡ true
      → IsOfKind (kind_at f) sc
      → IsValueOf f (some (many (list_of v ++ sc ∷ [])))
  snoc_all f none sc h rep k = (rep, omega arith, (k, tt))
  snoc_all f (some (one x)) sc h rep k = (rep, omega arith, (k, tt))
  snoc_all f (some (many xs)) sc (r, n, h) rep k =
      (rep, omega (arith, length-append xs (sc ∷ [])), append-All (kind_at f) xs sc h k)

  same_name :
      (i j : ℕ) (g h : SchemaField)
      → get_elem? fields i ≡ some g
      → get_elem? fields j ≡ some h
      → g.name ≡ h.name
      → g ≡ h
  same_name i j g h ge he e =
      let at_g = schema.table.name_found i g (get_elem?-lt fields i g ge) ge in
      let at_h = schema.table.name_found j h (get_elem?-lt fields j h he) he in
      let found : some i ≡ some j = sym at_g ∙ ap (λ (n : Bytes). lookup n s.by_name) e ∙ at_h in
      let same : i ≡ j = cc found in
      let there : some g ≡ some h = sym ge ∙ ap (get_elem? fields) same ∙ he in cc there

  -- The field that a value was stored for.
  store-IsValueOf :
      (g : SchemaField) (sc : Scalar) (out : Out)
      → IsOfKind (kind_at g) sc
      → IsValueOf g (lookup g.name out)
      → IsValueOf g (lookup g.name (store g sc out))
  store-IsValueOf g sc out k h = elim (Bool-cases g.repeated) [
    | inl rep ↦
        subst (IsValueOf g) (sym (lookup-store_many g sc out rep))
          (snoc_all g (lookup g.name out) sc h rep k)
    | inr flat ↦ subst (IsValueOf g) (sym (lookup-store_one g sc out flat)) (flat, k)
  ]

  store-IsStored :
      (i : ℕ) (g : SchemaField) (sc : Scalar) (out : Out)
      → get_elem? fields i ≡ some g
      → IsOfKind (kind_at g) sc
      → IsStored out
      → IsStored (store g sc out)
  store-IsStored i g sc out ge k st = record {
    typed = λ j h he. elim (Bool-cases (g.name =ᵇ h.name)) [
      | inl hit ↦
          subst (λ (x : SchemaField). IsValueOf x (lookup x.name (store g sc out)))
            (same_name i j g h ge he ((=ᵇ_iff g.name h.name).0 hit))
            (store-IsValueOf g sc out k (st.typed i g ge))
      | inr miss ↦
          let other : g.name ≢ h.name = λ e. ground (arith, =ᵇ_iff g.name h.name) in
          subst (IsValueOf h) (sym (lookup-store_other g sc out h.name other)) (st.typed j h he)
    ];
    fresh = λ name new.
        lookup-store_other g sc out name (get_elem?-IsFresh fields i g name ge new)
        ∙ st.fresh name new;
  }

  module _ (fl : Floats) where
    decode_none :
        (field wt : ℕ) (rest : Bytes) (out out' : Out) (n : ℕ)
        → decode_field fl none field wt rest out ≡ ok (out', n)
        → out ≡ out'
    unfolding decode_field
    decode_none field wt rest out out' n e = elim (Result-cases (skip_field rest wt)) [
      | inr (x, bad) ↦ absurd (ground arith)
      | inl (m, done) ↦ ground arith
    ]

    decode_some :
        (f : SchemaField) (field wt : ℕ) (rest : Bytes) (out out' : Out) (n : ℕ)
        → decode_field fl (some f) field wt rest out ≡ ok (out', n)
        → (sc : Scalar) × (m : ℕ) × (decode_value fl rest f.typ wt ≡ ok (sc, m))
          × (store f sc out ≡ out')
    unfolding decode_field
    decode_some f field wt rest out out' n e = elim (Result-cases (decode_value fl rest f.typ wt)) [
      | inr (x, bad) ↦ absurd (ground arith)
      | inl ((sc, m), done) ↦ (sc, m, done, ground arith)
    ]

    known_at :
        (field : ℕ) (f : SchemaField)
        → known_field s field ≡ some f
        → (j : ℕ) × (get_elem? fields j ≡ some f)
    unfolding known_field
    known_at field f e = elim (Option-cases (lookup field s.by_tag)) [
      | inl gone ↦ absurd (ground arith)
      | inr (j, found) ↦
          let at : get_elem? s.fields j ≡ some f = rw (known_field, found) at e in
          (j, ap (λ (l : List SchemaField). get_elem? l j) (sym schema.same_fields) ∙ at)
    ]

    -- A round stores a value of the field that the number leads to.
    decode_field-IsStored :
        (field wt : ℕ) (rest : Bytes) (out out' : Out) (n : ℕ)
        → IsStored out
        → decode_field fl (known_field s field) field wt rest out ≡ ok (out', n)
        → IsStored out'
    decode_field-IsStored field wt rest out out' n st e =
        elim (Option-cases (known_field s field)) [
          | inl unknown ↦
              let e' = rw unknown at e in
              subst IsStored (decode_none field wt rest out out' n e') st
          | inr (f, known) ↦
              let e' = rw known at e in
              let (j, there) = known_at field f known in
              let (sc, m, read, same) = decode_some f field wt rest out out' n e' in
              let typed = kind_at_typed f (get_elem?-All fields j f there schema.valid) in
              subst IsStored same (
                store-IsStored j f sc out there
                  (decode_value-IsOfKind fl rest sc m f.typ wt (kind_at f) typed read) st)
        ]

    decode_loop-IsStored :
        (fuel i : ℕ) (rest : Bytes) (out final : Out)
        → IsStored out
        → decode_loop fl s fuel i rest out ≡ some (ok final)
        → IsStored final
    unfolding decode_loop
    decode_loop-IsStored fuel i [] out final st e =
        let same : out ≡ final = ground arith in subst IsStored same st
    decode_loop-IsStored zero i (b ∷ bs) out final st e = cc
    decode_loop-IsStored (suc fuel) i (b ∷ bs) out final st e =
        elim (Option-cases (read_varint (b ∷ bs))) [
          | inl bad ↦ absurd (ground arith)
          | inr ((key, n), read) ↦
              let tail = drop n (b ∷ bs) in
              let field = key / 2 ^ 3 % 2 ^ 32 in
              elim (Result-cases
                (decode_field fl (known_field s field) field (bit_and key 0x7) tail out)) [
                  | inr (x, bad) ↦ absurd (cc (rw (decode_loop, read, bad) at e))
                  | inl ((out', m), d) ↦
                      decode_loop-IsStored fuel (i + n + m) (drop m tail) out' final
                        (decode_field-IsStored field (bit_and key 0x7) tail out out' m st d)
                        (sym (decode_loop_round fl s fuel i (b ∷ bs) out out' key n m read d) ∙ e)
                ]
        ]

    start-IsStored : IsStored []
    unfolding lookup
    start-IsStored = record { typed = λ j h he. tt; fresh = λ name new. refl }

  stored_values :
      (i : ℕ) (fs : List SchemaField) (out : Out)
      → Visits fields i fs
      → IsStored out
      → All (λ f. IsValueOf f (lookup f.name out)) fs
  stored_values i [] out v st = tt
  stored_values i (f ∷ fs) out v st =
      let here : get_elem? fields i ≡ some f = rw (add-zero i) at (v 0) in
      (st.typed i f here, stored_values (i + 1) fs out (Visits-next fields i f fs v) st)

-- In a schema that NewSchema made, whatever body DecodeProto returns a result for, the result has
-- for each field nothing or a value of the field's type: one value, or a list with an element at
-- least where the field is repeated, each of the Go type of its kind; an integer is one that a
-- varint stands for in that kind. It has nothing for a name of no field.
pub decode_proto-IsValueOf :
    (fl : Floats) (id : Bytes) (fields : List SchemaField) (s : Schema) (body name : Bytes)
    (out : List (Bytes × Any))
    → new_schema id fields ≡ ok s
    → IsFresh name fields
    → decode_proto fl s body ≡ some (ok out)
    → All (λ f. IsValueOf f (lookup f.name out)) fields × (lookup name out ≡ none)
unfolding decode_proto
decode_proto-IsValueOf fl id fields s body name out made new e =
    let schema = new_schema-IsSchema id fields s made in
    let st =
      decode_loop-IsStored id fields s schema fl (length body) 0 body [] out
        (start-IsStored id fields s schema fl) e in
    let whole : Visits fields 0 fields = λ j. ap (get_elem? fields) (zero-add j) in
    (stored_values id fields s schema 0 fields out whole st, st.fresh name new)
