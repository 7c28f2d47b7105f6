-- ===== src/Wire/Xxtea/Rounds.antt =====
-- The loops of the cipher, which carry a neighbour in `z` or `y`, as compositions of steps.
use native.Mathlib.Numerals.{add-one}
use esphome_mpubsub.Base.{ℕ, zero, suc, ◌+◌, ◌-◌, ◌≤◌, ◌≡◌, refl, ap, ◌∙◌}
use esphome_mpubsub.Base.{List, get_or, arith}
use esphome_mpubsub.Wire.Xxtea.{encrypt_pass, encrypt_round, decrypt_pass, decrypt_round}
use esphome_mpubsub.Wire.Xxtea.Steps.{before, after, amount, mix, unmix, mixes, unmixes}

module _ (key : List ℕ) (n sum : ℕ) (two : 2 ≤ n) where
  abbrev step : ℕ → List ℕ → List ℕ
  step = mix key n sum

  abbrev steps : ℕ → List ℕ → List ℕ
  steps = mixes key n sum

  abbrev back : ℕ → List ℕ → List ℕ
  back = unmix key n sum

  before-suc : (p : ℕ) → before n (suc p) ≡ p
  before-suc p = ground arith

  after_inner : (p : ℕ) → suc p ≤ n - 1 → after n p ≡ suc p
  after_inner p h = ground arith

  after_last : (p : ℕ) → p ≡ n - 1 → after n p ≡ 0
  after_last p e = ground arith

  encrypt_pass-suc :
      (left p : ℕ) (ws : List ℕ)
      → suc p ≤ n - 1
      → encrypt_pass key sum (suc left) p ws (get_or ws (before n p) 0)
        ≡ encrypt_pass key sum left (suc p) (step p ws) (get_or (step p ws) (before n (suc p)) 0)
  unfolding encrypt_pass mix amount
  encrypt_pass-suc left p ws h = rw (after_inner p h, before-suc p, add-one) refl

  -- The pass does the words that are left, and leaves in `z` the word before the last.
  encrypt_pass-steps :
      (left p : ℕ) (ws : List ℕ)
      → p + left ≡ n - 1
      → encrypt_pass key sum left p (steps p ws) (get_or (steps p ws) (before n p) 0)
        ≡ (steps (n - 1) ws, get_or (steps (n - 1) ws) (before n (n - 1)) 0)
  unfolding encrypt_pass
  encrypt_pass-steps zero p ws e =
      let q : p ≡ n - 1 = omega arith in
      ap (λ (t : ℕ). (steps t ws, get_or (steps t ws) (before n t) 0)) q
  encrypt_pass-steps (suc left) p ws e =
      encrypt_pass-suc left p (steps p ws) (omega arith)
      ∙ encrypt_pass-steps left (suc p) ws (omega arith)

  steps-last : (ws : List ℕ) → step (n - 1) (steps (n - 1) ws) ≡ steps n ws
  steps-last ws = let q : suc (n - 1) ≡ n = omega arith in ap (λ (t : ℕ). steps t ws) q

  abbrev with_last : List ℕ → List ℕ × ℕ
  with_last ws = (ws, get_or ws (n - 1) 0)

  abbrev with_first : List ℕ → List ℕ × ℕ
  with_first ws = (ws, get_or ws 0 0)

  encrypt_round-last :
      (ws : List ℕ)
      → encrypt_round key n sum ws (get_or ws (n - 1) 0)
        ≡ with_last (step (n - 1) (steps (n - 1) ws))
  unfolding encrypt_round mix amount
  encrypt_round-last ws =
      rw (encrypt_pass-steps (n - 1) 0 ws (omega arith), after_last (n - 1) refl) refl

  -- A round does all the words, and leaves the last in `z`.
  pub encrypt_round-steps :
      (ws : List ℕ) → encrypt_round key n sum ws (get_or ws (n - 1) 0) ≡ with_last (steps n ws)
  encrypt_round-steps ws = encrypt_round-last ws ∙ ap with_last (steps-last ws)

  decrypt_pass-suc :
      (p : ℕ) (ws : List ℕ)
      → suc p ≤ n - 1
      → decrypt_pass key sum (suc p) ws (get_or ws (after n (suc p)) 0)
        ≡ decrypt_pass key sum p (back (suc p) ws) (get_or (back (suc p) ws) (after n p) 0)
  unfolding decrypt_pass unmix amount
  decrypt_pass-suc p ws h = rw (after_inner p h, before-suc p) refl

  -- The pass and the step at word 0 together undo the words 0 to `p`.
  decrypt_pass-unmixes :
      (p : ℕ) (ws : List ℕ)
      → p ≤ n - 1
      → let r = decrypt_pass key sum p ws (get_or ws (after n p) 0) in
        (back 0 r.0 ≡ unmixes key n sum (suc p) ws) × (r.1 ≡ get_or r.0 (after n 0) 0)
  unfolding decrypt_pass
  decrypt_pass-unmixes zero ws h = (refl, refl)
  decrypt_pass-unmixes (suc p) ws h =
      rw (decrypt_pass-suc p ws h) (decrypt_pass-unmixes p (back (suc p) ws) (omega arith))

  decrypt_round-back :
      (ws : List ℕ)
      → decrypt_round key n sum ws (get_or ws (after n (n - 1)) 0)
        ≡ with_first (back 0 (decrypt_pass key sum (n - 1) ws (get_or ws (after n (n - 1)) 0)).0)
  unfolding decrypt_round unmix amount
  decrypt_round-back ws = rw ((decrypt_pass-unmixes (n - 1) ws (omega arith)).1) refl

  -- A round undoes all the words, and leaves the first in `y`.
  pub decrypt_round-unmixes :
      (ws : List ℕ)
      → decrypt_round key n sum ws (get_or ws 0 0) ≡ with_first (unmixes key n sum n ws)
  decrypt_round-unmixes ws =
      let q : suc (n - 1) ≡ n = omega arith in
      rw (after_last (n - 1) refl) at (decrypt_round-back ws)
      ∙ ap with_first
          (rw (after_last (n - 1) refl) at ((decrypt_pass-unmixes (n - 1) ws (omega arith)).0))
      ∙ ap (λ (t : ℕ). with_first (unmixes key n sum t ws)) q
