-- ===== src/Config/Loading/Resolved.antt =====
-- What a configuration that LoadConfig returns holds.
use mathlib.Core.Path.{subst}
use mathlib.Core.List.{Mem, mem-cons_self, mem-cons_of_mem}
use esphome_mpubsub.Base.{ℕ, ◌+◌, ◌≡◌, refl, ap₂, arith}
use esphome_mpubsub.Base.{
  List, [], ◌∷◌, map, Bytes, All, ◌=ᵇ◌, =ᵇ_iff, Option, none, some, ok, Bool-cases, Option-cases,
  Result-cases, inl, inr,
}
use esphome_mpubsub.Base.Maps.{bytes_eq, lookup, insert, lookup-insert}
use esphome_mpubsub.Schema.{Schema, new_schema}
use esphome_mpubsub.Config.{BridgeEntry, SchemaConfig}
use esphome_mpubsub.Config.Defaults.{
  schema_field, build_schemas, resolve_entry, resolve_entries, gate_entries,
}

-- A schema that NewSchema made of a declaration with this id.
abbrev pub IsDeclared : List SchemaConfig → Bytes → Schema → Type 0
IsDeclared all id s =
    (sc : SchemaConfig) × Mem sc all
    × (sc.id ≡ id)
    × (new_schema sc.id (map schema_field sc.fields) ≡ ok s)

-- Every entry of the map is of a declared schema.
abbrev pub IsMade : List SchemaConfig → List (Bytes × Schema) → Type 0
IsMade all made = (id : Bytes) (s : Schema) → lookup id made ≡ some s → IsDeclared all id s

insert-IsMade :
    (all : List SchemaConfig) (made : List (Bytes × Schema)) (sc : SchemaConfig) (s : Schema)
    → IsMade all made
    → Mem sc all
    → new_schema sc.id (map schema_field sc.fields) ≡ ok s
    → IsMade all (insert sc.id s made)
insert-IsMade all made sc s h m e id t found = elim (Bool-cases (sc.id =ᵇ id)) [
  | inl same ↦
      let new : s ≡ t = ground (arith, lookup-insert made sc.id id s) in
      (sc, m, (=ᵇ_iff sc.id id).0 same, rw new at e)
  | inr other ↦ h id t (ground (arith, lookup-insert made sc.id id s))
]

pub build_schemas-IsMade :
    (all rest : List SchemaConfig) (i : ℕ) (made out : List (Bytes × Schema))
    → ((sc : SchemaConfig) → Mem sc rest → Mem sc all)
    → IsMade all made
    → build_schemas i rest made ≡ ok out
    → IsMade all out
unfolding build_schemas
build_schemas-IsMade all [] i made out sub h e = let same : made ≡ out = cc in rw same at h
build_schemas-IsMade all (sc ∷ rest) i made out sub h e =
    elim (Result-cases (new_schema sc.id (map schema_field sc.fields))) [
      | inr (x, bad) ↦ absurd (ground arith)
      | inl (s, good) ↦ elim (Option-cases (lookup sc.id made)) [
        | inr (d, dup) ↦ absurd (ground arith)
        | inl new ↦
            build_schemas-IsMade all rest (i + 1) (insert sc.id s made) out
              (λ x m. sub x (mem-cons_of_mem sc m))
              (insert-IsMade all made sc s h (sub sc mem-cons_self) good) (ground arith)
      ]
    ]

-- An entry whose schema is named points to a schema of that id, and any other to none.
abbrev pub IsResolved : List SchemaConfig → Bytes → Option Schema → Type 0
IsResolved all name none = name ≡ []
IsResolved all name (some s) = IsDeclared all name s

abbrev pub IsLinked : List SchemaConfig → BridgeEntry → Type 0
IsLinked all b = IsResolved all b.schema b.schema_ptr

-- An entry as the file declares it.
abbrev pub unlinked : BridgeEntry → BridgeEntry
unlinked b = record b { schema_ptr = none }

unnamed-IsResolved :
    (all : List SchemaConfig) (name : Bytes) (o : Option Schema)
    → o ≡ none
    → name ≡ []
    → IsResolved all name o
unnamed-IsResolved all name none e n = n
unnamed-IsResolved all name (some s) e n = cc

unset-unlinked : (b : BridgeEntry) → b.schema_ptr ≡ none → b ≡ unlinked b
unset-unlinked b e i = record b { schema_ptr = e i }

resolve_entry-IsLinked :
    (all : List SchemaConfig) (made : List (Bytes × Schema)) (i : ℕ) (b b' : BridgeEntry)
    → IsMade all made
    → b.schema_ptr ≡ none
    → resolve_entry i made b ≡ ok b'
    → IsLinked all b' × (b ≡ unlinked b')
unfolding resolve_entry
resolve_entry-IsLinked all made i b b' h unset e = elim (Bool-cases (b.schema =ᵇ [])) [
  | inl empty ↦
      let same : b ≡ b' = ground arith in
      subst (λ (x : BridgeEntry). IsLinked all x × (b ≡ unlinked x)) same
        (
          unnamed-IsResolved all b.schema b.schema_ptr unset ((=ᵇ_iff b.schema []).0 empty),
          unset-unlinked b unset,
        )
  | inr named ↦ elim (Option-cases (lookup b.schema made)) [
    | inl missing ↦ absurd (ground arith)
    | inr (s, found) ↦
        let linked : record b { schema_ptr = some s } ≡ b' = ground arith in
        subst (λ (x : BridgeEntry). IsLinked all x × (b ≡ unlinked x)) linked
          (h b.schema s found, unset-unlinked b unset)
  ]
]

pub resolve_entries-IsLinked :
    (all : List SchemaConfig) (made : List (Bytes × Schema)) (bs : List BridgeEntry) (i : ℕ)
    (out : List BridgeEntry)
    → IsMade all made
    → All (λ b. b.schema_ptr ≡ none) bs
    → resolve_entries i made bs ≡ ok out
    → All (IsLinked all) out × (bs ≡ map unlinked out)
unfolding resolve_entries
resolve_entries-IsLinked all made [] i [] h u e = (tt, refl)
resolve_entries-IsLinked all made [] i (x ∷ xs) h u e = cc
resolve_entries-IsLinked all made (b ∷ bs) i out h (u, us) e =
    elim (Result-cases (resolve_entry i made b)) [
      | inr (x, bad) ↦ absurd (ground arith)
      | inl (b', one) ↦ elim (Result-cases (resolve_entries (i + 1) made bs)) [
        | inr (x, bad) ↦ absurd (ground arith)
        | inl (bs', rest) ↦
            let same : b' ∷ bs' ≡ out = ground arith in
            let (l, eq) = resolve_entry-IsLinked all made i b b' h u one in
            let (ls, eqs) = resolve_entries-IsLinked all made bs (i + 1) bs' h us rest in
            subst (λ (x : List BridgeEntry). All (IsLinked all) x × ((b ∷ bs) ≡ map unlinked x))
              same ((l, ls), ap₂ ◌∷◌ eq eqs)
      ]
    ]

pub gate_entries-unnamed :
    (all : List SchemaConfig) (bs : List BridgeEntry) (i : ℕ)
    → All (λ b. b.schema_ptr ≡ none) bs
    → gate_entries i bs ≡ ok tt
    → All (λ b. b.schema ≡ []) bs × All (IsLinked all) bs × (bs ≡ map unlinked bs)
unfolding gate_entries
gate_entries-unnamed all [] i u e = (tt, tt, refl)
gate_entries-unnamed all (b ∷ bs) i (u, us) e =
    let (n, l, eqs) = gate_entries-unnamed all bs (i + 1) us (ground arith) in
    let empty : b.schema ≡ [] = (=ᵇ_iff b.schema []).0 (ground arith) in
    (
      (empty, n),
      (unnamed-IsResolved all b.schema b.schema_ptr u empty, l),
      ap₂ ◌∷◌ (unset-unlinked b u) eqs,
    )
