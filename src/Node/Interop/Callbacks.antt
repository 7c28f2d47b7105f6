-- ===== src/Node/Interop/Callbacks.antt =====
-- Which callbacks a payload is for, said without the loops of deliver_ in
-- components/mpubsub/multicast_pubsub.cpp.
use esphome_mpubsub.Base.{
  ℕ, ◌≡◌, refl, ap, arith, Bool, false, not, ◌&&◌, ◌||◌, ◌==◌, ltb, if◌then◌else◌, Bool-cases, inl,
  inr,
}
use esphome_mpubsub.Base.{List, [], ◌∷◌, ◌++◌, map, Bytes, length}
use esphome_mpubsub.Node.Format.{Encoding, raw, protobuf, two_bytes}
use esphome_mpubsub.Node.{
  TypedCallback, Subscription, Invocation, run_raw, run_typed, run_callbacks, deliver,
}

-- The elements that pass a test.
abbrev pub keep_if {ℓ} : {A : Type ℓ} → (A → Bool) → List A → List A
keep_if test [] = []
keep_if test (x ∷ xs) = let rest = keep_if test xs in if test x then x ∷ rest else rest

abbrev pub concat_map {ℓ κ} : {A : Type ℓ} {B : Type κ} → (A → List B) → List A → List B
concat_map f [] = []
concat_map f (x ∷ xs) = f x ++ concat_map f xs

-- A subscription for a checksum; one that requires encryption only hears what was encrypted.
abbrev pub is_for : ℕ → Bool → Subscription → Bool
is_for crc encrypted sub = (sub.crc == crc) && (encrypted || not sub.require_encryption)

-- What a subscription that hears a payload does with it.
abbrev pub heard_by : Encoding → Bytes → Subscription → List Invocation
heard_by raw payload sub =
    map (λ (cb : ℕ). record { callback = cb; body = payload }) sub.raw_callbacks
heard_by protobuf (low ∷ high ∷ body) sub =
    map (λ (tc : TypedCallback). record { callback = tc.callback; body = body })
      (keep_if (λ tc. tc.schema_id == two_bytes low high) sub.typed_callbacks)
heard_by protobuf _ sub = []

abbrev pub called_for : ℕ → Encoding → Bytes → Bool → List Subscription → List Invocation
called_for crc encoding payload encrypted subs =
    concat_map (heard_by encoding payload) (keep_if (is_for crc encrypted) subs)

run_raw_lem :
    (cbs : List ℕ) (payload : Bytes)
    → run_raw cbs payload ≡ map (λ (cb : ℕ). record { callback = cb; body = payload }) cbs
unfolding run_raw
run_raw_lem [] payload = refl
run_raw_lem (cb ∷ cbs) payload =
    ap (λ (rest : List Invocation). record { callback = cb; body = payload } ∷ rest)
      (run_raw_lem cbs payload)

run_typed_lem :
    (tcs : List TypedCallback) (sid : ℕ) (body : Bytes)
    → run_typed tcs sid body
      ≡ map
          (λ (tc : TypedCallback). record { callback = tc.callback; body = body })
          (keep_if (λ tc. tc.schema_id == sid) tcs)
unfolding run_typed
run_typed_lem [] sid body = refl
run_typed_lem (tc ∷ tcs) sid body = elim (Bool-cases (tc.schema_id == sid)) [
  | inl hit ↦
      rw (run_typed, hit)
        (ap (λ (rest : List Invocation). record { callback = tc.callback; body = body } ∷ rest)
          (run_typed_lem tcs sid body))
  | inr miss ↦ rw (run_typed, miss) (run_typed_lem tcs sid body)
]

run_callbacks_lem :
    (sub : Subscription) (encoding : Encoding) (payload : Bytes)
    → run_callbacks sub encoding payload ≡ heard_by encoding payload sub
unfolding run_callbacks
run_callbacks_lem sub raw payload = run_raw_lem sub.raw_callbacks payload
run_callbacks_lem sub protobuf [] = refl
run_callbacks_lem sub protobuf (low ∷ []) = refl
run_callbacks_lem sub protobuf (low ∷ high ∷ body) =
    let long : ltb (length (low ∷ high ∷ body)) 2 ≡ false = ground arith in
    rw long (run_typed_lem sub.typed_callbacks (two_bytes low high) body)

pub deliver-called_for :
    (crc : ℕ) (encoding : Encoding) (payload : Bytes) (encrypted : Bool) (subs : List Subscription)
    → deliver subs crc encoding payload encrypted ≡ called_for crc encoding payload encrypted subs
unfolding deliver
deliver-called_for crc encoding payload encrypted [] = refl
deliver-called_for crc encoding payload encrypted (sub ∷ subs) = ground (
  arith,
  deliver-called_for crc encoding payload encrypted subs,
  run_callbacks_lem sub encoding payload,
)
