-- ===== src/Wire/Xxtea/Key.antt =====
-- How much of the key the cipher reads.
use esphome_mpubsub.Base.{ℕ, zero, suc, ◌+◌, ◌-◌, ◌<◌, ◌≡◌, refl, sym, ap, ◌∙◌, arith}
use esphome_mpubsub.Base.{List, [], ◌∷◌, get_or, take, bit_and, bit_xor}
use esphome_mpubsub.Base.Bits.{bit_xor-lt, bit_and_mask}
use esphome_mpubsub.Wire.Words.{shr32}
use esphome_mpubsub.Wire.Xxtea.{xxtea_mx, key_offset, encrypt_pass, encrypt_round, encrypt_rounds}
use esphome_mpubsub.Wire.Xxtea.{xxtea_encrypt}

get_or-take : (m i : ℕ) (k : List ℕ) → i < m → get_or (take m k) i 0 ≡ get_or k i 0
get_or-take zero i k h = absurd (omega arith)
get_or-take (suc m) i [] h = refl
get_or-take (suc m) zero (x ∷ k) h = refl
get_or-take (suc m) (suc i) (x ∷ k) h = get_or-take m i k (omega arith)

-- `(p & 3) ^ e` is below 4, since `e` is.
pub key_index-lt : (p sum : ℕ) → bit_xor (bit_and p 3) (key_offset sum) < 4
unfolding key_offset
key_index-lt p sum =
    bit_xor-lt 2 _ _ (omega (arith, bit_and_mask 2 p)) (omega (arith, bit_and_mask 2 (shr32 sum 2)))

module _ (k l : List ℕ) (same : take 4 k ≡ take 4 l) where
  same_word : (i : ℕ) → i < 4 → get_or k i 0 ≡ get_or l i 0
  same_word i h =
      sym (get_or-take 4 i k h) ∙ ap (λ (t : List ℕ). get_or t i 0) same ∙ get_or-take 4 i l h

  xxtea_mx-same :
      (z y sum p : ℕ)
      → xxtea_mx z y sum p (key_offset sum) k ≡ xxtea_mx z y sum p (key_offset sum) l
  unfolding xxtea_mx
  xxtea_mx-same z y sum p = rw (same_word _ (key_index-lt p sum)) refl

  encrypt_pass-same :
      (sum left p : ℕ) (ws : List ℕ) (z : ℕ)
      → encrypt_pass k sum left p ws z ≡ encrypt_pass l sum left p ws z
  unfolding encrypt_pass
  encrypt_pass-same sum zero p ws z = refl
  encrypt_pass-same sum (suc left) p ws z =
      rw (xxtea_mx-same z (get_or ws (p + 1) 0) sum p) (encrypt_pass-same sum left (p + 1) _ _)

  encrypt_round-same :
      (n sum : ℕ) (ws : List ℕ) (z : ℕ) → encrypt_round k n sum ws z ≡ encrypt_round l n sum ws z
  unfolding encrypt_round
  encrypt_round-same n sum ws z = rw (encrypt_pass-same sum (n - 1) 0 ws z) (
      let r = encrypt_pass l sum (n - 1) 0 ws z in
      rw (xxtea_mx-same r.1 (get_or r.0 0 0) sum (n - 1)) refl)

  encrypt_rounds-same :
      (n left sum : ℕ) (ws : List ℕ) (z : ℕ)
      → encrypt_rounds k n left sum ws z ≡ encrypt_rounds l n left sum ws z
  unfolding encrypt_rounds
  encrypt_rounds-same n zero sum ws z = refl
  encrypt_rounds-same n (suc left) sum ws z =
      rw (encrypt_round-same n _ ws z) (encrypt_rounds-same n left _ _ _)

-- Two keys with the same first four words encrypt every message alike: words 4 to 7 are not used.
pub xxtea_encrypt_half_key :
    (k l ws : List ℕ) → take 4 k ≡ take 4 l → xxtea_encrypt ws k ≡ xxtea_encrypt ws l
unfolding xxtea_encrypt
xxtea_encrypt_half_key k l ws same = rw (encrypt_rounds-same k l same _ _ _ _ _) refl
