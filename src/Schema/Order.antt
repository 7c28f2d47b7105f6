-- ===== src/Schema/Order.antt =====
-- The sorted lines of the canonical string, as the order of the fields changes.
use mathlib.Core.List.{Perm, Permᴰ}
use mathlib.Core.Logic.{∥∥₁_elim}
use esphome_mpubsub.Base.{◌%◌, ◌^◌, bit_and, ap₂, ◌≡◌, refl, ap, ◌∙◌, ◌⊎◌, inl, inr, arith}
use esphome_mpubsub.Base.{true, List, [], ◌∷◌, map, Bytes}
use native.Mathlib.Nat.{ℕ_set}
use esphome_mpubsub.Wire.Crc32.{crc32}
use esphome_mpubsub.Schema.{
  SchemaField, le_bytes, insert_sorted, sort_strings, field_line, join_lines,
}
use esphome_mpubsub.Schema.{canonical_schema_string, compute_schema_id}

le_bytes_total : (x y : Bytes) → (le_bytes x y ≡ true) ⊎ (le_bytes y x ≡ true)
unfolding le_bytes
le_bytes_total [] y = inl refl
le_bytes_total (a ∷ x) [] = inr refl
le_bytes_total (a ∷ x) (b ∷ y) = ground (arith, le_bytes_total x y)

le_bytes_antisymm : (x y : Bytes) → le_bytes x y ≡ true → le_bytes y x ≡ true → x ≡ y
unfolding le_bytes
le_bytes_antisymm [] [] h k = refl
le_bytes_antisymm [] (b ∷ y) h k = cc
le_bytes_antisymm (a ∷ x) [] h k = cc
le_bytes_antisymm (a ∷ x) (b ∷ y) h k = ground (arith, le_bytes_antisymm x y)

le_bytes_trans : (x y z : Bytes) → le_bytes x y ≡ true → le_bytes y z ≡ true → le_bytes x z ≡ true
unfolding le_bytes
le_bytes_trans [] y z h k = refl
le_bytes_trans (a ∷ x) [] z h k = cc
le_bytes_trans (a ∷ x) (b ∷ y) [] h k = cc
le_bytes_trans (a ∷ x) (b ∷ y) (c ∷ z) h k = ground (arith, le_bytes_trans x y z)

insert_sorted_comm :
    (x y : Bytes) (l : List Bytes)
    → insert_sorted x (insert_sorted y l) ≡ insert_sorted y (insert_sorted x l)
unfolding insert_sorted
insert_sorted_comm x y [] = ground (arith, le_bytes_total x y, le_bytes_antisymm x y)
insert_sorted_comm x y (z ∷ l) = ground (
  arith,
  le_bytes_total x y,
  le_bytes_antisymm x y,
  le_bytes_trans x y z,
  le_bytes_trans y x z,
  insert_sorted_comm x y l,
)

lines-Permᴰ :
    {fs gs : List SchemaField}
    → Permᴰ fs gs
    → sort_strings (map field_line fs) ≡ sort_strings (map field_line gs)
unfolding sort_strings
lines-Permᴰ Permᴰ.nil = refl
lines-Permᴰ (Permᴰ.cons e p) = ap₂ insert_sorted (ap field_line e) (lines-Permᴰ p)
lines-Permᴰ (Permᴰ.swap {a = f} {b = g} {l = l} e d) =
    insert_sorted_comm (field_line f) (field_line g) (sort_strings (map field_line l))
    ∙ ap₂ insert_sorted (ap field_line d)
        (ap (λ (h : SchemaField). insert_sorted (field_line h) (sort_strings (map field_line l))) e)
lines-Permᴰ (Permᴰ.trans p q) = lines-Permᴰ p ∙ lines-Permᴰ q

Bytes-set : IsSet Bytes
Bytes-set = hlevel ℕ_set

-- Two declarations of the same fields in another order have one canonical string, and so one
-- SCHEMA_ID.
pub canonical_schema_string-Perm :
    (fs gs : List SchemaField)
    → Perm fs gs
    → (canonical_schema_string fs ≡ canonical_schema_string gs)
      × (compute_schema_id fs ≡ compute_schema_id gs)
canonical_schema_string-Perm fs gs p =
    let same : canonical_schema_string fs ≡ canonical_schema_string gs =
      ∥∥₁_elim p (Bytes-set _ _)
        (λ d. unfold canonical_schema_string in ap join_lines (lines-Permᴰ d)) in
    (same, unfold compute_schema_id in ap (λ (c : Bytes). bit_and (crc32 c) 0xFFFF % 2 ^ 16) same)
