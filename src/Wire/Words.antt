-- ===== src/Wire/Words.antt =====
-- The uint32 operations of wire.go, and words as four bytes, lowest first.
use esphome_mpubsub.Base.{ℕ, zero, suc, ◌+◌, ◌-◌, ◌*◌, ◌/◌, ◌%◌, ◌^◌, ◌<◌, ◌≡◌, refl, arith}
use esphome_mpubsub.Base.{List, [], ◌∷◌, ◌++◌, length, All, Bytes, IsByte}
use esphome_mpubsub.Base.{take, ap, sym, ◌∙◌}
use esphome_mpubsub.Base.{◌==◌, if◌then◌else◌}

abbrev pub IsU32 : ℕ → Type 0
IsU32 w = w < 2 ^ 32

abbrev pub u32 : ℕ → ℕ
u32 n = n % 2 ^ 32

-- `a + b`, `a - b`, `a << k` and `a >> k` on uint32.
abbrev pub add32 : ℕ → ℕ → ℕ
add32 a b = u32 (a + b)

abbrev pub sub32 : ℕ → ℕ → ℕ
sub32 a b = u32 (a + 2 ^ 32 - b)

abbrev pub shl32 : ℕ → ℕ → ℕ
shl32 a k = u32 (a * 2 ^ k)

abbrev pub shr32 : ℕ → ℕ → ℕ
shr32 a k = a / 2 ^ k

-- `binary.LittleEndian.PutUint32`, `Uint32`, `PutUint16` and `Uint16`.
unfoldable pub put_u32 : ℕ → Bytes
put_u32 w = (w % 256) ∷ (w / 2 ^ 8 % 256) ∷ (w / 2 ^ 16 % 256) ∷ (w / 2 ^ 24 % 256) ∷ []

unfoldable pub get_u32 : ℕ → ℕ → ℕ → ℕ → ℕ
get_u32 a b c d = a + b * 2 ^ 8 + c * 2 ^ 16 + d * 2 ^ 24

unfoldable pub put_u16 : ℕ → Bytes
put_u16 w = (w % 256) ∷ (w / 2 ^ 8 % 256) ∷ []

unfoldable pub get_u16 : ℕ → ℕ → ℕ
get_u16 a b = a + b * 2 ^ 8

words_of : Bytes → List ℕ
words_of (a ∷ b ∷ c ∷ d ∷ rest) = get_u32 a b c d ∷ words_of rest
words_of _ = []

-- `nil` where the length is no multiple of four.
unfoldable pub bytes_to_words_le : Bytes → List ℕ
unfolding words_of
bytes_to_words_le b = if length b % 4 == 0 then words_of b else []

unfoldable pub words_to_bytes_le : List ℕ → Bytes
words_to_bytes_le [] = []
words_to_bytes_le (w ∷ ws) = put_u32 w ++ words_to_bytes_le ws

pub length-words_to_bytes_le : (ws : List ℕ) → length (words_to_bytes_le ws) ≡ 4 * length ws
unfolding words_to_bytes_le put_u32
length-words_to_bytes_le [] = refl
length-words_to_bytes_le (w ∷ ws) = omega (arith, length-words_to_bytes_le ws)

words_of_bytes : (ws : List ℕ) → All IsU32 ws → words_of (words_to_bytes_le ws) ≡ ws
unfolding words_of words_to_bytes_le put_u32 get_u32
words_of_bytes [] h = refl
words_of_bytes (w ∷ ws) h = ground (arith, words_of_bytes ws h.1)

pub bytes_to_words_le-words_to_bytes_le :
    (ws : List ℕ) → All IsU32 ws → bytes_to_words_le (words_to_bytes_le ws) ≡ ws
unfolding bytes_to_words_le
bytes_to_words_le-words_to_bytes_le ws h =
    ground (arith, length-words_to_bytes_le ws, words_of_bytes ws h)

-- Bytes in groups of four: what the word functions are given.
abbrev Fours : Bytes → ℕ → Type 0
Fours b k = length b ≡ 4 * k

bytes_of_words : (k : ℕ) (b : Bytes) → Fours b k → All IsByte b → words_to_bytes_le (words_of b) ≡ b
unfolding words_of words_to_bytes_le put_u32 get_u32
bytes_of_words k [] e h = refl
bytes_of_words zero (a ∷ r) e h = absurd (omega arith)
bytes_of_words (suc k) (a ∷ []) e h = absurd (omega arith)
bytes_of_words (suc k) (a ∷ b ∷ []) e h = absurd (omega arith)
bytes_of_words (suc k) (a ∷ b ∷ c ∷ []) e h = absurd (omega arith)
bytes_of_words (suc k) (a ∷ b ∷ c ∷ d ∷ r) e h =
    ground (arith, bytes_of_words k r (omega arith) h.1.1.1.1)

words_of-IsU32 : (k : ℕ) (b : Bytes) → Fours b k → All IsByte b → All IsU32 (words_of b)
unfolding words_of get_u32
words_of-IsU32 k [] e h = tt
words_of-IsU32 zero (a ∷ r) e h = absurd (omega arith)
words_of-IsU32 (suc k) (a ∷ []) e h = absurd (omega arith)
words_of-IsU32 (suc k) (a ∷ b ∷ []) e h = absurd (omega arith)
words_of-IsU32 (suc k) (a ∷ b ∷ c ∷ []) e h = absurd (omega arith)
words_of-IsU32 (suc k) (a ∷ b ∷ c ∷ d ∷ r) e h =
    (omega arith, words_of-IsU32 k r (omega arith) h.1.1.1.1)

length-words_of : (k : ℕ) (b : Bytes) → Fours b k → length (words_of b) ≡ k
unfolding words_of
length-words_of zero [] e = refl
length-words_of (suc k) [] e = absurd (omega arith)
length-words_of zero (a ∷ r) e = absurd (omega arith)
length-words_of (suc k) (a ∷ []) e = absurd (omega arith)
length-words_of (suc k) (a ∷ b ∷ []) e = absurd (omega arith)
length-words_of (suc k) (a ∷ b ∷ c ∷ []) e = absurd (omega arith)
length-words_of (suc k) (a ∷ b ∷ c ∷ d ∷ r) e = omega (arith, length-words_of k r (omega arith))

words_of-opens : (k : ℕ) (b : Bytes) → Fours b k → bytes_to_words_le b ≡ words_of b
unfolding bytes_to_words_le
words_of-opens k b e = ground arith

pub length-bytes_to_words_le : (k : ℕ) (b : Bytes) → Fours b k → length (bytes_to_words_le b) ≡ k
length-bytes_to_words_le k b e = rw (words_of-opens k b e) (length-words_of k b e)

module _ (k : ℕ) (b : Bytes) (e : Fours b k) (h : All IsByte b) where
  pub words_to_bytes_le-bytes_to_words_le : words_to_bytes_le (bytes_to_words_le b) ≡ b
  words_to_bytes_le-bytes_to_words_le = rw (words_of-opens k b e) (bytes_of_words k b e h)

  pub bytes_to_words_le-IsU32 : All IsU32 (bytes_to_words_le b)
  bytes_to_words_le-IsU32 = rw (words_of-opens k b e) (words_of-IsU32 k b e h)

abbrev four_times : ℕ → ℕ
four_times zero = 0
four_times (suc m) = suc (suc (suc (suc (four_times m))))

take-words_of : (m : ℕ) (b : Bytes) → take m (words_of b) ≡ words_of (take (four_times m) b)
unfolding words_of
take-words_of zero b = refl
take-words_of (suc m) [] = refl
take-words_of (suc m) (x ∷ []) = refl
take-words_of (suc m) (x ∷ y ∷ []) = refl
take-words_of (suc m) (x ∷ y ∷ z ∷ []) = refl
take-words_of (suc m) (x ∷ y ∷ z ∷ w ∷ b) =
    ap (λ (t : List ℕ). get_u32 x y z w ∷ t) (take-words_of m b)

-- Keys with the same first 16 bytes have the same first four words.
pub take-bytes_to_words_le :
    (k l : Bytes)
    → length k ≡ 32
    → length l ≡ 32
    → take 16 k ≡ take 16 l
    → take 4 (bytes_to_words_le k) ≡ take 4 (bytes_to_words_le l)
take-bytes_to_words_le k l lk ll same =
    rw (words_of-opens 8 k lk, words_of-opens 8 l ll)
      (take-words_of 4 k ∙ ap words_of same ∙ sym (take-words_of 4 l))
