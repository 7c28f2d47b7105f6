-- ===== src/Node/Sha256.antt =====
-- The digest of components/mpubsub/sha256.cpp. What the buffer holds behind its length is left out,
-- for it is written again before it is read.
pub mod Streaming
use mathlib.Core.List.{foldl}
use esphome_mpubsub.Base.{ℕ, zero, suc, ◌+◌, ◌-◌, ◌*◌, ◌/◌, ◌%◌, ◌^◌, bit_and, bit_or, bit_xor}
use esphome_mpubsub.Base.{
  ltb, ◌==◌, if◌then◌else◌, List, [], ◌∷◌, ◌++◌, Bytes, length, get_or, take, drop, replicate,
}

abbrev k_table : List ℕ
k_table =
    0x428a2f98 ∷ 0x71374491 ∷ 0xb5c0fbcf ∷ 0xe9b5dba5 ∷ 0x3956c25b ∷ 0x59f111f1 ∷ 0x923f82a4
    ∷ 0xab1c5ed5 ∷ 0xd807aa98 ∷ 0x12835b01 ∷ 0x243185be ∷ 0x550c7dc3 ∷ 0x72be5d74 ∷ 0x80deb1fe
    ∷ 0x9bdc06a7 ∷ 0xc19bf174 ∷ 0xe49b69c1 ∷ 0xefbe4786 ∷ 0x0fc19dc6 ∷ 0x240ca1cc ∷ 0x2de92c6f
    ∷ 0x4a7484aa ∷ 0x5cb0a9dc ∷ 0x76f988da ∷ 0x983e5152 ∷ 0xa831c66d ∷ 0xb00327c8 ∷ 0xbf597fc7
    ∷ 0xc6e00bf3 ∷ 0xd5a79147 ∷ 0x06ca6351 ∷ 0x14292967 ∷ 0x27b70a85 ∷ 0x2e1b2138 ∷ 0x4d2c6dfc
    ∷ 0x53380d13 ∷ 0x650a7354 ∷ 0x766a0abb ∷ 0x81c2c92e ∷ 0x92722c85 ∷ 0xa2bfe8a1 ∷ 0xa81a664b
    ∷ 0xc24b8b70 ∷ 0xc76c51a3 ∷ 0xd192e819 ∷ 0xd6990624 ∷ 0xf40e3585 ∷ 0x106aa070 ∷ 0x19a4c116
    ∷ 0x1e376c08 ∷ 0x2748774c ∷ 0x34b0bcb5 ∷ 0x391c0cb3 ∷ 0x4ed8aa4a ∷ 0x5b9cca4f ∷ 0x682e6ff3
    ∷ 0x748f82ee ∷ 0x78a5636f ∷ 0x84c87814 ∷ 0x8cc70208 ∷ 0x90befffa ∷ 0xa4506ceb ∷ 0xbef9a3f7
    ∷ 0xc67178f2 ∷ []

-- `+`, `>>`, `~` and the rotation on uint32.
abbrev sum32 : ℕ → ℕ → ℕ
sum32 a b = (a + b) % 2 ^ 32

abbrev invert : ℕ → ℕ
invert a = bit_xor a 0xFFFFFFFF

unfoldable pub rotr : ℕ → ℕ → ℕ
rotr x n = bit_or (x / 2 ^ n) (x * 2 ^ (32 - n) % 2 ^ 32)

pub record Sha256 : Type 0 where
  pub state : List ℕ
  pub bit_len : ℕ
  pub buffer : Bytes

abbrev pub new_sha256 : Sha256
new_sha256 = record {
  state =
      0x6a09e667 ∷ 0xbb67ae85 ∷ 0x3c6ef372 ∷ 0xa54ff53a ∷ 0x510e527f ∷ 0x9b05688c ∷ 0x1f83d9ab
      ∷ 0x5be0cd19 ∷ [];
  bit_len = 0;
  buffer = [];
}

-- The first 16 words of a block, big-endian.
unfoldable pub block_words : Bytes → List ℕ
block_words (a ∷ b ∷ c ∷ d ∷ rest) =
    bit_or (bit_or (bit_or (a * 2 ^ 24) (b * 2 ^ 16)) (c * 2 ^ 8)) d ∷ block_words rest
block_words _ = []

-- The words from number `i` on, `left` of them.
unfoldable pub extend_words : ℕ → ℕ → List ℕ → List ℕ
extend_words zero i w = w
extend_words (suc left) i w =
    let at = λ (j : ℕ). get_or w j 0 in
    let s0 =
      bit_xor (bit_xor (rotr (at (i - 15)) 7) (rotr (at (i - 15)) 18)) (at (i - 15) / 2 ^ 3) in
    let s1 =
      bit_xor (bit_xor (rotr (at (i - 2)) 17) (rotr (at (i - 2)) 19)) (at (i - 2) / 2 ^ 10) in
    extend_words left (i + 1) (w ++ sum32 (sum32 (sum32 (at (i - 16)) s0) (at (i - 7))) s1 ∷ [])

pub record Working : Type 0 where
  pub a : ℕ
  pub b : ℕ
  pub c : ℕ
  pub d : ℕ
  pub e : ℕ
  pub f : ℕ
  pub g : ℕ
  pub h : ℕ

unfoldable pub sha_round : ℕ → ℕ → Working → Working
sha_round k w v =
    let s1 = bit_xor (bit_xor (rotr v.e 6) (rotr v.e 11)) (rotr v.e 25) in
    let ch = bit_xor (bit_and v.e v.f) (bit_and (invert v.e) v.g) in
    let t1 = sum32 (sum32 (sum32 (sum32 v.h s1) ch) k) w in
    let s0 = bit_xor (bit_xor (rotr v.a 2) (rotr v.a 13)) (rotr v.a 22) in
    let mj = bit_xor (bit_xor (bit_and v.a v.b) (bit_and v.a v.c)) (bit_and v.b v.c) in
    let t2 = sum32 s0 mj in
    record {
      a = sum32 t1 t2;
      b = v.a;
      c = v.b;
      d = v.c;
      e = sum32 v.d t1;
      f = v.e;
      g = v.f;
      h = v.g;
    }

unfoldable pub sha_rounds : List ℕ → List ℕ → Working → Working
sha_rounds (k ∷ ks) (w ∷ ws) v = sha_rounds ks ws (sha_round k w v)
sha_rounds _ _ v = v

unfoldable pub process_block : List ℕ → Bytes → List ℕ
process_block state block =
    let at = λ (i : ℕ). get_or state i 0 in
    let v =
      sha_rounds k_table (extend_words 48 16 (block_words block)) (record {
        a = at 0;
        b = at 1;
        c = at 2;
        d = at 3;
        e = at 4;
        f = at 5;
        g = at 6;
        h = at 7;
      }) in
    sum32 (at 0) v.a
    ∷ sum32 (at 1) v.b
    ∷ sum32 (at 2) v.c
    ∷ sum32 (at 3) v.d
    ∷ sum32 (at 4) v.e
    ∷ sum32 (at 5) v.f
    ∷ sum32 (at 6) v.g
    ∷ sum32 (at 7) v.h
    ∷ []

-- The buffer with more bytes behind it, and the block processed where it is full.
unfoldable pub fill : Bytes → Sha256 → Sha256
fill chunk st =
    let buffer = st.buffer ++ chunk in
    if length buffer == 64
    then record st { state = process_block st.state buffer; buffer = [] }
    else record st { buffer = buffer }

-- The loop of update, with a round of fuel for each byte.
unfoldable pub update_loop : ℕ → Bytes → Sha256 → Sha256
update_loop zero bytes st = st
update_loop (suc fuel) [] st = st
update_loop (suc fuel) (x ∷ bytes) st =
    let room = 64 - length st.buffer in
    let n = if ltb (suc (length bytes)) room then suc (length bytes) else room in
    update_loop fuel (drop n (x ∷ bytes)) (fill (take n (x ∷ bytes)) st)

unfoldable pub update : Bytes → Sha256 → Sha256
update bytes st =
    update_loop (length bytes) bytes
      (record st { bit_len = (st.bit_len + length bytes * 8) % 2 ^ 64 })

-- `bit_len` in eight bytes, big-endian.
unfoldable pub length_bytes : ℕ → Bytes
length_bytes n =
    n / 2 ^ 56 % 256
    ∷ n / 2 ^ 48 % 256
    ∷ n / 2 ^ 40 % 256
    ∷ n / 2 ^ 32 % 256
    ∷ n / 2 ^ 24 % 256
    ∷ n / 2 ^ 16 % 256
    ∷ n / 2 ^ 8 % 256
    ∷ n % 256
    ∷ []

-- The state behind the padding.
unfoldable pub padded : Sha256 → List ℕ
padded st =
    let marked = st.buffer ++ 0x80 ∷ [] in
    if ltb 56 (length marked)
    then process_block (process_block st.state (marked ++ replicate (64 - length marked) 0))
        (replicate 56 0 ++ length_bytes st.bit_len)
    else process_block st.state
        (marked ++ (replicate (56 - length marked) 0 ++ length_bytes st.bit_len))

unfoldable pub state_bytes : List ℕ → Bytes
state_bytes [] = []
state_bytes (w ∷ ws) =
    w / 2 ^ 24 % 256 ∷ w / 2 ^ 16 % 256 ∷ w / 2 ^ 8 % 256 ∷ w % 256 ∷ state_bytes ws

unfoldable pub finalize : Sha256 → Bytes
finalize st = state_bytes (padded st)

unfoldable pub hash : Bytes → Bytes
hash bytes = finalize (update bytes new_sha256)
