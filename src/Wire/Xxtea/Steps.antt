-- ===== src/Wire/Xxtea/Steps.antt =====
-- One word of one round: the update of word `p`, which reads its two neighbours, and its undoing.
use esphome_mpubsub.Base.{ℕ, zero, suc, ◌+◌, ◌-◌, ◌^◌, ◌<◌, ◌≤◌, ◌≡◌, refl, ap, ◌≢◌, ◌∙◌}
use esphome_mpubsub.Base.{List, length, get_or, set, All, ◌==◌, if◌then◌else◌, arith}
use esphome_mpubsub.Base.{length-set, get_or-set_self, get_or-set_ne, set-set, set-get_or, All-set}
use esphome_mpubsub.Base.{All-get_or}
use esphome_mpubsub.Base.Bits.{bit_xor-lt}
use esphome_mpubsub.Wire.Words.{IsU32, add32, sub32}
use esphome_mpubsub.Wire.Xxtea.{xxtea_mx, key_offset}

-- The neighbours of `p` on a ring of `n` words.
abbrev pub before : ℕ → ℕ → ℕ
before n p = if p == 0 then n - 1 else p - 1

abbrev pub after : ℕ → ℕ → ℕ
after n p = if (p + 1) == n then 0 else p + 1

pub xxtea_mx-lt : (z y sum p e : ℕ) (k : List ℕ) → xxtea_mx z y sum p e k < 2 ^ 32
unfolding xxtea_mx
xxtea_mx-lt z y sum p e k = bit_xor-lt 32 _ _ (omega arith) (omega arith)

module _ (key : List ℕ) (n sum : ℕ) where
  -- What is added to word `p`.
  unfoldable pub amount : ℕ → List ℕ → ℕ
  amount p ws =
      xxtea_mx (get_or ws (before n p) 0) (get_or ws (after n p) 0) sum p (key_offset sum) key

  unfoldable pub mix : ℕ → List ℕ → List ℕ
  mix p ws = set ws p (add32 (get_or ws p 0) (amount p ws))

  unfoldable pub unmix : ℕ → List ℕ → List ℕ
  unmix p ws = set ws p (sub32 (get_or ws p 0) (amount p ws))

  amount-set : (p v : ℕ) (ws : List ℕ) → 2 ≤ n → p < n → amount p (set ws p v) ≡ amount p ws
  unfolding amount
  amount-set p v ws h q =
      let below : p ≢ before n p = ground arith in
      let above : p ≢ after n p = ground arith in
      rw (get_or-set_ne ws p (before n p) v 0 below, get_or-set_ne ws p (after n p) v 0 above) refl

  pub length-mix : (p : ℕ) (ws : List ℕ) → length (mix p ws) ≡ length ws
  unfolding mix
  length-mix p ws = length-set ws p _

  pub mix-IsU32 : (p : ℕ) (ws : List ℕ) → All IsU32 ws → All IsU32 (mix p ws)
  unfolding mix
  mix-IsU32 p ws h = All-set IsU32 ws p _ (omega arith) h

  add_then_sub : (x m : ℕ) → x < 2 ^ 32 → m < 2 ^ 32 → sub32 (add32 x m) m ≡ x
  add_then_sub x m hx hm = omega arith

  -- Word by word, decryption takes away what encryption added.
  pub unmix-mix :
      (p : ℕ) (ws : List ℕ) → 2 ≤ n → p < n → length ws ≡ n → All IsU32 ws → unmix p (mix p ws) ≡ ws
  unfolding mix unmix
  unmix-mix p ws h q len words =
      let v = add32 (get_or ws p 0) (amount p ws) in
      let x-lt : get_or ws p 0 < 2 ^ 32 = All-get_or IsU32 ws p 0 (omega arith) words in
      let restored : sub32 (get_or (set ws p v) p 0) (amount p (set ws p v)) ≡ get_or ws p 0 =
        rw (get_or-set_self ws p v 0 (omega arith), amount-set p v ws h q)
          (add_then_sub _ _ x-lt (unfold amount in xxtea_mx-lt _ _ _ _ _ key)) in
      set-set ws p v _ ∙ ap (set ws p) restored ∙ set-get_or ws p 0

  -- The words 0 to `p - 1` in order, and back from `p - 1` to 0.
  abbrev pub mixes : ℕ → List ℕ → List ℕ
  mixes zero ws = ws
  mixes (suc p) ws = mix p (mixes p ws)

  abbrev pub unmixes : ℕ → List ℕ → List ℕ
  unmixes zero ws = ws
  unmixes (suc p) ws = unmixes p (unmix p ws)

  pub length-mixes : (p : ℕ) (ws : List ℕ) → length (mixes p ws) ≡ length ws
  length-mixes zero ws = refl
  length-mixes (suc p) ws = length-mix p (mixes p ws) ∙ length-mixes p ws

  pub mixes-IsU32 : (p : ℕ) (ws : List ℕ) → All IsU32 ws → All IsU32 (mixes p ws)
  mixes-IsU32 zero ws h = h
  mixes-IsU32 (suc p) ws h = mix-IsU32 p (mixes p ws) (mixes-IsU32 p ws h)

  pub unmixes-mixes :
      (p : ℕ) (ws : List ℕ)
      → 2 ≤ n
      → p ≤ n
      → length ws ≡ n
      → All IsU32 ws
      → unmixes p (mixes p ws) ≡ ws
  unmixes-mixes zero ws h q len words = refl
  unmixes-mixes (suc p) ws h q len words =
      ap (unmixes p)
        (unmix-mix p (mixes p ws) h q (length-mixes p ws ∙ len) (mixes-IsU32 p ws words))
      ∙ unmixes-mixes p ws h (omega arith) len words
