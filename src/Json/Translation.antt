-- ===== src/Json/Translation.antt =====
-- JSONToProto followed by ProtoToJSON, field by field.
use mathlib.Core.Path.{subst}
use esphome_mpubsub.Base.{
  ℕ, ◌+◌, ◌≡◌, ◌≢◌, refl, ap, ap₂, sym, ◌∙◌, arith, Bool, true, false, if◌then◌else◌, Bool-cases,
  Option-cases, inl, inr,
}
use esphome_mpubsub.Base.{
  List, [], ◌∷◌, map, Bytes, lit, ◌=ᵇ◌, =ᵇ_iff, Option, none, some, ok, bind_ok, ok-injective, err,
  Result,
}
use esphome_mpubsub.Base.Maps.{bytes_eq}
use esphome_mpubsub.Schema.{SchemaField, kind_of, bytes_kind}
use esphome_mpubsub.Proto.Value.{Scalar, string_val, Any, one, many, Floats}
use esphome_mpubsub.Proto.Value.Taken.{settle}
use esphome_mpubsub.Proto.Message.{kind_at, TakenValue, kept, settle_any, settle_each}
use esphome_mpubsub.Json.{
  JsonLib, is_bytes, base64_to_go, at_element, JsonError, json_scalar_to_go, json_elements,
  json_repeated, json_single, json_value_to_go, bytes_to_json, go_scalar_to_json, go_value_to_json,
}
use esphome_mpubsub.Json.Prepared.{map_option, IsPrepared}

pub at_element_ok {ℓ} :
    {A : Type ℓ} (i : ℕ) (r : Result JsonError A) (a : A) → at_element i r ≡ ok a → r ≡ ok a
at_element_ok i (ok x) a e = ap ok (ok-injective e)
at_element_ok i (err x) a e = cc

module _ (fl : Floats) (lib : JsonLib) where
  -- What a value of a field is once it has been translated and translated back: in a field of
  -- bytes, base64 text of the same bytes; else what the field's type makes of it.
  abbrev pub base64_shown : Scalar → Scalar
  base64_shown (string_val t) = elim (lib.decode_base64 t) [
    | none ↦ string_val t
    | some b ↦ string_val (lib.encode_base64 b)
  ]
  base64_shown x = x

  abbrev pub shown : SchemaField → Scalar → Scalar
  shown f x = if is_bytes f.typ then base64_shown x else settle fl (kind_at f) x

  abbrev pub translated : SchemaField → Option Any → Option Any
  translated f none = none
  translated f (some (one x)) = some (one (shown f x))
  translated f (some (many [])) = none
  translated f (some (many (x ∷ xs))) = some (many (map (shown f) (x ∷ xs)))

  bytes_kind_at : (f : SchemaField) → is_bytes f.typ ≡ true → kind_at f ≡ bytes_kind
  unfolding kind_at kind_of ◌=ᵇ◌
  bytes_kind_at f e =
      ap (λ (t : Bytes). kind_at (record f { typ = t })) ((=ᵇ_iff f.typ (lit "bytes")).0 e)

  base64_back : (x c : Scalar) → base64_to_go lib x ≡ ok c → bytes_to_json lib c ≡ base64_shown x
  unfolding base64_to_go bytes_to_json
  base64_back (string_val t) c e = elim (Option-cases (lib.decode_base64 t)) [
    | inl bad ↦ absurd (ground arith)
    | inr (b, good) ↦ ground arith
  ]
  base64_back x c e = absurd (ground arith)

  scalar_back :
      (f : SchemaField) (x c : Scalar)
      → json_scalar_to_go lib f.typ x ≡ ok c
      → go_scalar_to_json lib f.typ (settle fl (kind_at f) c) ≡ shown f x
  unfolding json_scalar_to_go go_scalar_to_json settle
  scalar_back f x c e = elim (Bool-cases (is_bytes f.typ)) [
    | inl bytes ↦ rw (bytes, bytes_kind_at f bytes) (base64_back x c (ground arith))
    | inr plain ↦ ground arith
  ]

  elements_back :
      (f : SchemaField) (xs cs : List Scalar) (i : ℕ)
      → json_elements lib f.typ i xs ≡ ok cs
      → map (go_scalar_to_json lib f.typ) (settle_each fl f cs) ≡ map (shown f) xs
  unfolding json_elements
  elements_back f [] [] i e = refl
  elements_back f [] (c ∷ cs) i e = cc
  elements_back f (x ∷ xs) cs i e =
      let (c, made, e1) = bind_ok (at_element i (json_scalar_to_go lib f.typ x)) _ cs e in
      let (rest, done, e2) = bind_ok (json_elements lib f.typ (i + 1) xs) _ cs e1 in
      subst
        (λ (l : List Scalar).
          map (go_scalar_to_json lib f.typ) (settle_each fl f l) ≡ map (shown f) (x ∷ xs))
        (ok-injective e2)
        (ap₂ ◌∷◌ (scalar_back f x c (at_element_ok i (json_scalar_to_go lib f.typ x) c made))
          (elements_back f xs rest (i + 1) done))

  elements_cons :
      (typ : Bytes) (x : Scalar) (xs : List Scalar) (i : ℕ)
      → json_elements lib typ i (x ∷ xs) ≢ ok []
  unfolding json_elements
  elements_cons typ x xs i e =
      let (c, made, e1) = bind_ok (at_element i (json_scalar_to_go lib typ x)) _ [] e in
      let (rest, done, e2) = bind_ok (json_elements lib typ (i + 1) xs) _ [] e1 in
      cc (ok-injective e2)

  -- A list keeps whether it is empty.
  many_back :
      (f : SchemaField) (xs cs : List Scalar)
      → json_elements lib f.typ 0 xs ≡ ok cs
      → f.repeated ≡ true
      → map_option (go_value_to_json lib f) (kept (settle_any fl f (some (many cs))))
        ≡ translated f (some (many xs))
  unfolding go_value_to_json json_elements
  many_back f [] [] e rep = refl
  many_back f [] (c ∷ cs) e rep = absurd (ground arith)
  many_back f (x ∷ xs) [] e rep = absurd (elements_cons f.typ x xs 0 e)
  many_back f (x ∷ xs) (c ∷ cs) e rep =
      ap
        (λ (b : Bool). some (
          if b
          then many (map (go_scalar_to_json lib f.typ) (settle_each fl f (c ∷ cs)))
          else many (settle_each fl f (c ∷ cs))))
        rep
      ∙ ap (λ (l : List Scalar). some (many l)) (elements_back f (x ∷ xs) (c ∷ cs) 0 e)

  one_back :
      (f : SchemaField) (x c : Scalar)
      → json_scalar_to_go lib f.typ x ≡ ok c
      → f.repeated ≡ false
      → map_option (go_value_to_json lib f) (kept (settle_any fl f (some (one c))))
        ≡ translated f (some (one x))
  unfolding go_value_to_json
  one_back f x c e flat =
      let y = settle fl (kind_at f) c in
      ap (λ (b : Bool). some (if b then one y else one (go_scalar_to_json lib f.typ y))) flat
      ∙ ap (λ (z : Scalar). some (one z)) (scalar_back f x c e)

  value_back_one :
      (f : SchemaField) (x : Scalar) (y : Any)
      → json_value_to_go lib f (one x) ≡ ok y
      → map_option (go_value_to_json lib f) (kept (settle_any fl f (some y)))
        ≡ translated f (some (one x))
  unfolding json_value_to_go json_repeated json_single
  value_back_one f x y p = elim (Bool-cases f.repeated) [
    | inl rep ↦ absurd (ground arith)
    | inr flat ↦
        let p' : json_single lib f.typ (one x) ≡ ok y = rw flat at p in
        let (c, done, e1) = bind_ok (json_scalar_to_go lib f.typ x) _ y p' in
        subst
          (λ (w : Any).
            map_option (go_value_to_json lib f) (kept (settle_any fl f (some w)))
            ≡ translated f (some (one x)))
          (ok-injective e1) (one_back f x c done flat)
  ]

  value_back_many :
      (f : SchemaField) (xs : List Scalar) (y : Any)
      → json_value_to_go lib f (many xs) ≡ ok y
      → TakenValue fl f (some y)
      → map_option (go_value_to_json lib f) (kept (settle_any fl f (some y)))
        ≡ translated f (some (many xs))
  unfolding json_value_to_go json_repeated json_single
  value_back_many f xs y p t = elim (Bool-cases f.repeated) [
    | inl rep ↦
        let p' : json_repeated lib f.typ (many xs) ≡ ok y = rw rep at p in
        let (cs, done, e1) = bind_ok (json_elements lib f.typ 0 xs) _ y p' in
        subst
          (λ (w : Any).
            map_option (go_value_to_json lib f) (kept (settle_any fl f (some w)))
            ≡ translated f (some (many xs)))
          (ok-injective e1) (many_back f xs cs done rep)
    | inr flat ↦ elim (Bool-cases (is_bytes f.typ)) [
      | inl bytes ↦ absurd (ground arith)
      | inr plain ↦
          let same : many xs ≡ y = ground arith in
          let (rep, z) = subst (λ (w : Any). TakenValue fl f (some w)) (sym same) t in
          absurd (ground arith)
    ]
  ]

  pub value_back :
      (f : SchemaField) (v v' : Option Any)
      → IsPrepared lib f v v'
      → TakenValue fl f v'
      → map_option (go_value_to_json lib f) (kept (settle_any fl f v')) ≡ translated f v
  value_back f none none p t = refl
  value_back f none (some y) p t = absurd p
  value_back f (some x) none p t = absurd p
  value_back f (some (one x)) (some y) p t = value_back_one f x y p
  value_back f (some (many xs)) (some y) p t = value_back_many f xs y p t
