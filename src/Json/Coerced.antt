-- ===== src/Json/Coerced.antt =====
-- What the coercions of JSONToProto make of the values that a Go program can hold.
use mathlib.Core.Path.{subst}
use esphome_mpubsub.Base.{ℕ, ◌+◌, ◌≤◌, ◌<◌, ◌^◌, ◌≡◌, arith, Bool-cases, Option-cases, inl, inr}
use esphome_mpubsub.Base.{
  List, [], ◌∷◌, Bytes, length, All, Option, none, some, ok, bind_ok, ok-injective,
}
use esphome_mpubsub.Base.Maps.{bytes_eq}
use esphome_mpubsub.Schema.{SchemaField}
use esphome_mpubsub.Proto.Value.{Scalar, string_val, bytes_val, Any, one, many}
use esphome_mpubsub.Proto.Value.Accepted.{IsGo}
use esphome_mpubsub.Proto.Message.Accepted.{IsGoAny}
use esphome_mpubsub.Json.{
  JsonLib, is_bytes, base64_to_go, at_element, json_scalar_to_go, json_elements, json_repeated,
  json_single, json_value_to_go,
}
use esphome_mpubsub.Json.Prepared.{IsPrepared}
use esphome_mpubsub.Json.Translation.{at_element_ok}

-- Base64 does not decode to more bytes than there are in the text.
abbrev pub IsShrinking : (Bytes → Option Bytes) → Type 0
IsShrinking decode = (text b : Bytes) → decode text ≡ some b → length b ≤ length text

module _ (lib : JsonLib) (shrinks : IsShrinking lib.decode_base64) where
  scalar-IsGo : (typ : Bytes) (x c : Scalar) → IsGo x → json_scalar_to_go lib typ x ≡ ok c → IsGo c
  unfolding json_scalar_to_go base64_to_go
  scalar-IsGo typ (string_val t) c go e = elim (Bool-cases (is_bytes typ)) [
    | inl bytes ↦ elim (Option-cases (lib.decode_base64 t)) [
      | inl bad ↦ absurd (ground arith)
      | inr (b, good) ↦
          let short = shrinks t b good in
          let same : bytes_val b ≡ c = ground arith in
          let fits : length b < 2 ^ 64 = omega arith in subst IsGo same fits
    ]
    | inr plain ↦ let same : string_val t ≡ c = ground arith in subst IsGo same go
  ]
  scalar-IsGo typ x c go e = elim (Bool-cases (is_bytes typ)) [
    | inl bytes ↦ absurd (ground arith)
    | inr plain ↦ let same : x ≡ c = ground arith in subst IsGo same go
  ]

  elements-IsGo :
      (typ : Bytes) (i : ℕ) (xs cs : List Scalar)
      → All IsGo xs
      → json_elements lib typ i xs ≡ ok cs
      → All IsGo cs
  unfolding json_elements
  elements-IsGo typ i xs [] go e = tt
  elements-IsGo typ i [] (c ∷ cs) go e = absurd (ground arith)
  elements-IsGo typ i (x ∷ xs) (c ∷ cs) (go, gos) e =
      let (c', made, e1) = bind_ok (at_element i (json_scalar_to_go lib typ x)) _ (c ∷ cs) e in
      let (rest, done, e2) = bind_ok (json_elements lib typ (i + 1) xs) _ (c ∷ cs) e1 in
      subst (All IsGo) (ok-injective e2) (
        scalar-IsGo typ x c' go (at_element_ok i (json_scalar_to_go lib typ x) c' made),
        elements-IsGo typ (i + 1) xs rest gos done,
      )

  value-IsGo :
      (f : SchemaField) (v v' : Any)
      → IsGoAny (some v)
      → json_value_to_go lib f v ≡ ok v'
      → IsGoAny (some v')
  unfolding json_value_to_go json_repeated json_single
  value-IsGo f (one x) v' go e = elim (Bool-cases f.repeated) [
    | inl rep ↦ absurd (ground arith)
    | inr flat ↦
        let e' : json_single lib f.typ (one x) ≡ ok v' = rw flat at e in
        let (c, made, e1) = bind_ok (json_scalar_to_go lib f.typ x) _ v' e' in
        subst (λ (w : Any). IsGoAny (some w)) (ok-injective e1) (scalar-IsGo f.typ x c go made)
  ]
  value-IsGo f (many xs) v' go e = elim (Bool-cases f.repeated) [
    | inl rep ↦
        let e' : json_repeated lib f.typ (many xs) ≡ ok v' = rw rep at e in
        let (cs, made, e1) = bind_ok (json_elements lib f.typ 0 xs) _ v' e' in
        subst (λ (w : Any). IsGoAny (some w)) (ok-injective e1)
          (elements-IsGo f.typ 0 xs cs go made)
    | inr flat ↦ elim (Bool-cases (is_bytes f.typ)) [
      | inl bytes ↦ absurd (ground arith)
      | inr plain ↦
          let same : many xs ≡ v' = ground arith in subst (λ (w : Any). IsGoAny (some w)) same go
    ]
  ]

  pub prepared-IsGo :
      (f : SchemaField) (v v' : Option Any) → IsGoAny v → IsPrepared lib f v v' → IsGoAny v'
  prepared-IsGo f none none go p = tt
  prepared-IsGo f (some x) none go p = tt
  prepared-IsGo f none (some y) go p = absurd p
  prepared-IsGo f (some x) (some y) go p = value-IsGo f x y go p
