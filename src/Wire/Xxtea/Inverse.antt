-- ===== src/Wire/Xxtea/Inverse.antt =====
-- Encryption and decryption as whole loops over the rounds.
use esphome_mpubsub.Base.{ℕ, zero, suc, ◌+◌, ◌-◌, ◌*◌, ◌≤◌, ◌≡◌, refl, ap, ◌∙◌}
use esphome_mpubsub.Base.{List, length, get_or, All, arith, ltb, le→ltb_false}
use esphome_mpubsub.Base.{Bool-cases, inl, inr, true}
use esphome_mpubsub.Wire.Words.{IsU32, u32, add32, sub32}
use esphome_mpubsub.Wire.Xxtea.{xxtea_delta, encrypt_rounds, decrypt_rounds, rounds_for}
use esphome_mpubsub.Wire.Xxtea.{xxtea_encrypt, xxtea_decrypt}
use esphome_mpubsub.Wire.Xxtea.Steps.{mixes, length-mixes, mixes-IsU32, unmixes-mixes}
use esphome_mpubsub.Wire.Xxtea.Rounds.{encrypt_round-steps, decrypt_round-unmixes}

-- `sum` in round `r`, counted from 1.
abbrev pub sum_at : ℕ → ℕ
sum_at r = u32 (r * xxtea_delta)

sum_raised : (r : ℕ) → add32 (sum_at r) xxtea_delta ≡ sum_at (suc r)
sum_raised r = omega arith

sum_lowered : (r : ℕ) → sub32 (sum_at (suc r)) xxtea_delta ≡ sum_at r
sum_lowered r = omega arith

module _ (key : List ℕ) (n : ℕ) (two : 2 ≤ n) where
  -- The words after the rounds 1 to `r`.
  abbrev after_rounds : ℕ → List ℕ → List ℕ
  after_rounds zero ws = ws
  after_rounds (suc r) ws = mixes key n (sum_at (suc r)) n (after_rounds r ws)

  length-after_rounds : (r : ℕ) (ws : List ℕ) → length (after_rounds r ws) ≡ length ws
  length-after_rounds zero ws = refl
  length-after_rounds (suc r) ws =
      length-mixes key n (sum_at (suc r)) n (after_rounds r ws) ∙ length-after_rounds r ws

  after_rounds-IsU32 : (r : ℕ) (ws : List ℕ) → All IsU32 ws → All IsU32 (after_rounds r ws)
  after_rounds-IsU32 zero ws h = h
  after_rounds-IsU32 (suc r) ws h =
      mixes-IsU32 key n (sum_at (suc r)) n (after_rounds r ws) (after_rounds-IsU32 r ws h)

  encrypt_rounds-after :
      (left r : ℕ) (ws : List ℕ)
      → encrypt_rounds key n left
          (sum_at r)
          (after_rounds r ws)
          (get_or (after_rounds r ws) (n - 1) 0)
        ≡ after_rounds (r + left) ws
  unfolding encrypt_rounds
  encrypt_rounds-after zero r ws =
      let q : r ≡ r + 0 = omega arith in ap (λ (t : ℕ). after_rounds t ws) q
  encrypt_rounds-after (suc left) r ws =
      let q : suc r + left ≡ r + suc left = omega arith in
      rw (sum_raised r, encrypt_round-steps key n (sum_at (suc r)) two (after_rounds r ws))
        (encrypt_rounds-after left (suc r) ws)
      ∙ ap (λ (t : ℕ). after_rounds t ws) q

  decrypt_rounds-after :
      (r : ℕ) (ws : List ℕ)
      → length ws ≡ n
      → All IsU32 ws
      → decrypt_rounds key n r (sum_at r) (after_rounds r ws) (get_or (after_rounds r ws) 0 0) ≡ ws
  unfolding decrypt_rounds
  decrypt_rounds-after zero ws len words = refl
  decrypt_rounds-after (suc r) ws len words =
      let undone =
        unmixes-mixes key n (sum_at (suc r)) n (after_rounds r ws) two (omega arith)
          (length-after_rounds r ws ∙ len) (after_rounds-IsU32 r ws words) in
      rw
        (
          decrypt_round-unmixes key n (sum_at (suc r)) two (after_rounds (suc r) ws),
          undone,
          sum_lowered r,
        )
        (decrypt_rounds-after r ws len words)

xxtea_encrypt-after :
    (ws key : List ℕ) (two : 2 ≤ length ws)
    → xxtea_encrypt ws key ≡ after_rounds key (length ws) two (rounds_for (length ws)) ws
unfolding xxtea_encrypt
xxtea_encrypt-after ws key two =
    let q : 0 + rounds_for (length ws) ≡ rounds_for (length ws) = omega arith in
    rw (le→ltb_false (length ws) 2 two) (
      encrypt_rounds-after key (length ws) two (rounds_for (length ws)) 0 ws
      ∙ ap (λ (t : ℕ). after_rounds key (length ws) two t ws) q)

pub length-xxtea_encrypt :
    (ws key : List ℕ) → 2 ≤ length ws → length (xxtea_encrypt ws key) ≡ length ws
length-xxtea_encrypt ws key two =
    ap length (xxtea_encrypt-after ws key two)
    ∙ length-after_rounds key (length ws) two (rounds_for (length ws)) ws

pub xxtea_encrypt-IsU32 :
    (ws key : List ℕ) → 2 ≤ length ws → All IsU32 ws → All IsU32 (xxtea_encrypt ws key)
xxtea_encrypt-IsU32 ws key two h =
    rw (xxtea_encrypt-after ws key two)
      (after_rounds-IsU32 key (length ws) two (rounds_for (length ws)) ws h)

short_unchanged : (ws key : List ℕ) → ltb (length ws) 2 ≡ true → xxtea_encrypt ws key ≡ ws
unfolding xxtea_encrypt
short_unchanged ws key short = rw short refl

-- Decryption with the same key gives back every message of 32-bit words, whatever its length:
-- one word or none is passed through by both.
pub xxtea_decrypt-xxtea_encrypt :
    (ws key : List ℕ) → All IsU32 ws → xxtea_decrypt (xxtea_encrypt ws key) key ≡ ws
unfolding xxtea_decrypt
xxtea_decrypt-xxtea_encrypt ws key h = elim (Bool-cases (ltb (length ws) 2)) [
  | inl short ↦ rw (short_unchanged ws key short, short) refl
  | inr long ↦
      let two : 2 ≤ length ws = ground arith in
      rw (length-xxtea_encrypt ws key two, long, xxtea_encrypt-after ws key two)
        (decrypt_rounds-after key (length ws) two (rounds_for (length ws)) ws refl h)
]
