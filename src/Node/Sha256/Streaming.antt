-- ===== src/Node/Sha256/Streaming.antt =====
-- The blocks of update do not depend on how the bytes come.
use mathlib.Core.List.{foldl}
use mathlib.Core.Path.{subst}
use esphome_mpubsub.Base.{
  ℕ, zero, suc, ◌+◌, ◌-◌, ◌*◌, ◌%◌, ◌^◌, ◌≤◌, ◌<◌, ◌≡◌, refl, ap, ◌∙◌, sym, arith, ltb, ◌==◌, false,
  if◌then◌else◌, Bool-cases, inl, inr,
}
use esphome_mpubsub.Base.{
  List, [], ◌∷◌, ◌++◌, Bytes, length, take, drop, length-append, length-take_le, length-drop,
  take-append-drop, append_assoc,
}
use esphome_mpubsub.Node.Sha256.{
  Sha256, new_sha256, process_block, fill, update_loop, update, state_bytes, padded, finalize, hash,
}

-- A byte at a time.
abbrev pub absorb : Sha256 → ℕ → Sha256
absorb st b = fill (b ∷ []) st

-- A buffer with room.
abbrev pub HasRoom : Sha256 → Type 0
HasRoom st = length st.buffer < 64

-- A chunk that fits is absorbed byte by byte.
fill_lem :
    (b : ℕ) (chunk : Bytes) (st : Sha256)
    → length st.buffer + suc (length chunk) ≤ 64
    → fill (b ∷ chunk) st ≡ foldl absorb st (b ∷ chunk)
unfolding fill
fill_lem b [] st h = refl
fill_lem b (c ∷ chunk) st h =
    let one : length (st.buffer ++ b ∷ []) ≡ length st.buffer + 1 =
      length-append st.buffer (b ∷ []) in
    let open_yet : (length (st.buffer ++ b ∷ []) == 64) ≡ false = ground arith in
    let next = record st { buffer = st.buffer ++ b ∷ [] } in
    let step : fill (b ∷ []) st ≡ next = rw (fill, open_yet) refl in
    ap
      (λ (buffer : Bytes).
        if length buffer == 64
        then record st { state = process_block st.state buffer; buffer = [] }
        else record st { buffer = buffer })
      (sym (append_assoc st.buffer (b ∷ []) (c ∷ chunk)))
    ∙ fill_lem c chunk next (omega (arith, one))
    ∙ ap (λ (t : Sha256). foldl absorb t (c ∷ chunk)) (sym step)

fill-HasRoom :
    (chunk : Bytes) (st : Sha256) → length st.buffer + length chunk ≤ 64 → HasRoom (fill chunk st)
unfolding fill
fill-HasRoom chunk st h = elim (Bool-cases (length (st.buffer ++ chunk) == 64)) [
  | inl full ↦ rw (fill, full) (omega arith)
  | inr not_full ↦ rw (fill, not_full) (ground (arith, length-append st.buffer chunk))
]

foldl-append :
    (xs ys : Bytes) (st : Sha256)
    → foldl absorb st (xs ++ ys) ≡ foldl absorb (foldl absorb st xs) ys
foldl-append [] ys st = refl
foldl-append (x ∷ xs) ys st = foldl-append xs ys (absorb st x)

-- A round that takes `suc m` bytes, where the rounds behind it do as they should.
round_lem :
    (fuel x : ℕ) (bytes : Bytes) (st : Sha256)
    → ((rest : Bytes) (t : Sha256)
        → length rest ≤ fuel
        → HasRoom t
        → update_loop fuel rest t ≡ foldl absorb t rest)
    → suc (length bytes) ≤ suc fuel
    → (m : ℕ) → m ≤ length bytes
    → length st.buffer + suc m ≤ 64
    → update_loop fuel (drop m bytes) (fill (x ∷ take m bytes) st) ≡ foldl absorb st (x ∷ bytes)
round_lem fuel x bytes st behind le m short fits =
    let taken = length-take_le m bytes short in
    let chunk : length st.buffer + suc (length (take m bytes)) ≤ 64 = omega (arith, taken) in
    behind (drop m bytes) (fill (x ∷ take m bytes) st) (omega (arith, length-drop m bytes))
      (fill-HasRoom (x ∷ take m bytes) st chunk)
    ∙ ap (λ (t : Sha256). foldl absorb t (drop m bytes)) (fill_lem x (take m bytes) st chunk)
    ∙ sym (foldl-append (x ∷ take m bytes) (drop m bytes) st)
    ∙ ap (λ (l : Bytes). foldl absorb st (x ∷ l)) (take-append-drop m bytes)

update_loop_lem :
    (fuel : ℕ) (bytes : Bytes) (st : Sha256)
    → length bytes ≤ fuel
    → HasRoom st
    → update_loop fuel bytes st ≡ foldl absorb st bytes
unfolding update_loop
update_loop_lem zero [] st le room = refl
update_loop_lem zero (x ∷ bytes) st le room = absurd (omega arith)
update_loop_lem (suc fuel) [] st le room = refl
update_loop_lem (suc fuel) (x ∷ bytes) st le room =
    elim (Bool-cases (ltb (suc (length bytes)) (64 - length st.buffer))) [
      | inl all ↦ rw all (
          round_lem fuel x bytes st (update_loop_lem fuel) le (length bytes) (omega arith)
            (ground arith))
      | inr some_of_it ↦
          let pred : 64 - length st.buffer ≡ suc (63 - length st.buffer) = omega arith in
          rw (some_of_it, pred)
            (round_lem fuel x bytes st (update_loop_lem fuel) le (63 - length st.buffer)
              (ground arith) (omega arith))
    ]

-- The length in bits plays no part in the blocks.
abbrev with_len : ℕ → Sha256 → Sha256
with_len n st = record st { bit_len = n }

absorb_len : (b n : ℕ) (st : Sha256) → absorb (with_len n st) b ≡ with_len n (absorb st b)
unfolding fill
absorb_len b n st = elim (Bool-cases (length (st.buffer ++ b ∷ []) == 64)) [
  | inl full ↦ rw (fill, full) refl
  | inr not_full ↦ rw (fill, not_full) refl
]

foldl_len :
    (bytes : Bytes) (n : ℕ) (st : Sha256)
    → foldl absorb (with_len n st) bytes ≡ with_len n (foldl absorb st bytes)
foldl_len [] n st = refl
foldl_len (b ∷ bytes) n st =
    ap (λ (t : Sha256). foldl absorb t bytes) (absorb_len b n st) ∙ foldl_len bytes n (absorb st b)

absorb-HasRoom : (bytes : Bytes) (st : Sha256) → HasRoom st → HasRoom (foldl absorb st bytes)
absorb-HasRoom [] st h = h
absorb-HasRoom (b ∷ bytes) st h =
    absorb-HasRoom bytes (absorb st b) (fill-HasRoom (b ∷ []) st (omega arith))

fill_len : (chunk : Bytes) (st : Sha256) → (fill chunk st).bit_len ≡ st.bit_len
unfolding fill
fill_len chunk st = elim (Bool-cases (length (st.buffer ++ chunk) == 64)) [
  | inl full ↦ rw (fill, full) refl
  | inr not_full ↦ rw (fill, not_full) refl
]

absorbed_len : (bytes : Bytes) (st : Sha256) → (foldl absorb st bytes).bit_len ≡ st.bit_len
absorbed_len [] st = refl
absorbed_len (b ∷ bytes) st = absorbed_len bytes (absorb st b) ∙ fill_len (b ∷ []) st

-- update takes the bytes one by one, and counts them.
update_lem :
    (bytes : Bytes) (st : Sha256)
    → HasRoom st
    → update bytes st ≡ with_len ((st.bit_len + length bytes * 8) % 2 ^ 64) (foldl absorb st bytes)
unfolding update
update_lem bytes st room =
    update_loop_lem (length bytes) bytes (with_len ((st.bit_len + length bytes * 8) % 2 ^ 64) st)
      (omega arith) room
    ∙ foldl_len bytes ((st.bit_len + length bytes * 8) % 2 ^ 64) st

-- From a state whose buffer has room, to update the firmware's SHA-256 with two parts one after
-- the other is to update it with both at once, however they cut the blocks; and there is room
-- behind it.
pub update-append :
    (xs ys : Bytes) (st : Sha256)
    → HasRoom st
    → (update ys (update xs st) ≡ update (xs ++ ys) st) × HasRoom (update xs st)
update-append xs ys st room =
    let first = (st.bit_len + length xs * 8) % 2 ^ 64 in
    let mid = foldl absorb st xs in
    let mid_room = absorb-HasRoom xs st room in
    let bits : (first + length ys * 8) % 2 ^ 64 ≡ (st.bit_len + length (xs ++ ys) * 8) % 2 ^ 64 =
      omega (arith, length-append xs ys) in
    (
      ap (update ys) (update_lem xs st room)
          ∙ update_lem ys (with_len first mid) mid_room
          ∙ ap (with_len ((first + length ys * 8) % 2 ^ 64)) (foldl_len ys first mid)
          ∙ ap (λ (n : ℕ). with_len n (foldl absorb mid ys)) bits
          ∙ ap (with_len ((st.bit_len + length (xs ++ ys) * 8) % 2 ^ 64))
              (sym (foldl-append xs ys st))
          ∙ sym (update_lem (xs ++ ys) st room),
      subst HasRoom (sym (update_lem xs st room)) mid_room,
    )

length-padded : (st : Sha256) → length (padded st) ≡ 8
unfolding padded process_block
length-padded st = elim (Bool-cases (ltb 56 (length (st.buffer ++ 0x80 ∷ [])))) [
  | inl over ↦ rw (padded, over) refl
  | inr fits ↦ rw (padded, fits) refl
]

length-state_bytes : (ws : List ℕ) → length (state_bytes ws) ≡ 4 * length ws
unfolding state_bytes
length-state_bytes [] = refl
length-state_bytes (w ∷ ws) = omega (arith, length-state_bytes ws)

-- A digest has 32 bytes.
pub length-hash : (bytes : Bytes) → length (hash bytes) ≡ 32
unfolding hash finalize
length-hash bytes =
    length-state_bytes (padded (update bytes new_sha256))
    ∙ ap (λ (n : ℕ). 4 * n) (length-padded (update bytes new_sha256))
