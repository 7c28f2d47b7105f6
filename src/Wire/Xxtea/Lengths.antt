-- ===== src/Wire/Xxtea/Lengths.antt =====
-- The number of words through the loops of xxteaDecrypt.
use esphome_mpubsub.Base.{ℕ, zero, suc, ◌≡◌, ◌-◌, refl, ◌∙◌, List, length, length-set, get_or, ltb}
use esphome_mpubsub.Base.{Bool-cases, inl, inr}
use esphome_mpubsub.Wire.Words.{sub32}
use esphome_mpubsub.Wire.Xxtea.{
  decrypt_pass, decrypt_round, decrypt_rounds, xxtea_decrypt, xxtea_delta,
}

module _ (key : List ℕ) where
  length-decrypt_pass :
      (sum p : ℕ) (ws : List ℕ) (y : ℕ) → length (decrypt_pass key sum p ws y).0 ≡ length ws
  unfolding decrypt_pass
  length-decrypt_pass sum zero ws y = refl
  length-decrypt_pass sum (suc p) ws y = length-decrypt_pass sum p _ _ ∙ length-set ws (suc p) _

  length-decrypt_round :
      (n sum : ℕ) (ws : List ℕ) (y : ℕ) → length (decrypt_round key n sum ws y).0 ≡ length ws
  unfolding decrypt_round
  length-decrypt_round n sum ws y = length-set _ 0 _ ∙ length-decrypt_pass sum (n - 1) ws y

  length-decrypt_rounds :
      (n left sum : ℕ) (ws : List ℕ) (y : ℕ)
      → length (decrypt_rounds key n left sum ws y) ≡ length ws
  unfolding decrypt_rounds
  length-decrypt_rounds n zero sum ws y = refl
  length-decrypt_rounds n (suc left) sum ws y =
      length-decrypt_rounds n left (sub32 sum xxtea_delta) (decrypt_round key n sum ws y).0 _
      ∙ length-decrypt_round n sum ws y

pub length-xxtea_decrypt : (ws key : List ℕ) → length (xxtea_decrypt ws key) ≡ length ws
unfolding xxtea_decrypt
length-xxtea_decrypt ws key = elim (Bool-cases (ltb (length ws) 2)) [
  | inl short ↦ rw short refl
  | inr long ↦ rw long (length-decrypt_rounds key (length ws) _ _ ws (get_or ws 0 0))
]
