-- ===== src/Wire/Xxtea.antt =====
-- xxteaMX, xxteaEncrypt and xxteaDecrypt of wire.go. The slice that Go changes in place is returned.
-- An index out of range reads 0; the loops stay in range, and their callers pass a key of 8 words.
pub mod Steps
pub mod Rounds
pub mod Inverse
pub mod Key
pub mod Lengths
use esphome_mpubsub.Base.{ℕ, zero, suc, ◌+◌, ◌-◌, ◌*◌, ◌/◌, bit_and, bit_xor}
use esphome_mpubsub.Base.{List, length, get_or, set, ltb, if◌then◌else◌}
use esphome_mpubsub.Wire.Words.{add32, sub32, shl32, shr32, u32}

abbrev pub xxtea_delta : ℕ
xxtea_delta = 0x9E3779B9

unfoldable pub xxtea_mx : ℕ → ℕ → ℕ → ℕ → ℕ → List ℕ → ℕ
xxtea_mx z y sum p e k =
    bit_xor (add32 (bit_xor (shr32 z 5) (shl32 y 2)) (bit_xor (shr32 y 3) (shl32 z 4)))
      (add32 (bit_xor sum y) (bit_xor (get_or k (bit_xor (bit_and p 3) e) 0) z))

-- `int((sum >> 2) & 3)`
unfoldable pub key_offset : ℕ → ℕ
key_offset sum = bit_and (shr32 sum 2) 3

-- The loop on `p` of one encryption round, with `left` rounds to go; it returns the words and `z`.
unfoldable pub encrypt_pass : List ℕ → ℕ → ℕ → ℕ → List ℕ → ℕ → List ℕ × ℕ
encrypt_pass key sum zero p words z = (words, z)
encrypt_pass key sum (suc left) p words z =
    let y = get_or words (p + 1) 0 in
    let words' = set words p (add32 (get_or words p 0) (xxtea_mx z y sum p (key_offset sum) key)) in
    encrypt_pass key sum left (p + 1) words' (get_or words' p 0)

-- The body of the loop on `r`, for `sum` as just raised.
unfoldable pub encrypt_round : List ℕ → ℕ → ℕ → List ℕ → ℕ → List ℕ × ℕ
encrypt_round key n sum words z =
    let (words', z') = encrypt_pass key sum (n - 1) 0 words z in
    let y = get_or words' 0 0 in
    let words'' =
      set words' (n - 1)
        (add32 (get_or words' (n - 1) 0) (xxtea_mx z' y sum (n - 1) (key_offset sum) key)) in
    (words'', get_or words'' (n - 1) 0)

unfoldable pub encrypt_rounds : List ℕ → ℕ → ℕ → ℕ → List ℕ → ℕ → List ℕ
encrypt_rounds key n zero sum words z = words
encrypt_rounds key n (suc left) sum words z =
    let sum' = add32 sum xxtea_delta in
    let (words', z') = encrypt_round key n sum' words z in encrypt_rounds key n left sum' words' z'

unfoldable pub rounds_for : ℕ → ℕ
rounds_for n = 6 + 52 / n

unfoldable pub xxtea_encrypt : List ℕ → List ℕ → List ℕ
xxtea_encrypt words key =
    let n = length words in
    if ltb n 2 then words else encrypt_rounds key n (rounds_for n) 0 words (get_or words (n - 1) 0)

-- The loop on `p` of one decryption round, from `p` down to 1; it returns the words and `y`.
unfoldable pub decrypt_pass : List ℕ → ℕ → ℕ → List ℕ → ℕ → List ℕ × ℕ
decrypt_pass key sum zero words y = (words, y)
decrypt_pass key sum (suc p) words y =
    let z = get_or words p 0 in
    let words' =
      set words (suc p)
        (sub32 (get_or words (suc p) 0) (xxtea_mx z y sum (suc p) (key_offset sum) key)) in
    decrypt_pass key sum p words' (get_or words' (suc p) 0)

unfoldable pub decrypt_round : List ℕ → ℕ → ℕ → List ℕ → ℕ → List ℕ × ℕ
decrypt_round key n sum words y =
    let (words', y') = decrypt_pass key sum (n - 1) words y in
    let z = get_or words' (n - 1) 0 in
    let words'' =
      set words' 0 (sub32 (get_or words' 0 0) (xxtea_mx z y' sum 0 (key_offset sum) key)) in
    (words'', get_or words'' 0 0)

unfoldable pub decrypt_rounds : List ℕ → ℕ → ℕ → ℕ → List ℕ → ℕ → List ℕ
decrypt_rounds key n zero sum words y = words
decrypt_rounds key n (suc left) sum words y =
    let (words', y') = decrypt_round key n sum words y in
    decrypt_rounds key n left (sub32 sum xxtea_delta) words' y'

unfoldable pub xxtea_decrypt : List ℕ → List ℕ → List ℕ
xxtea_decrypt words key =
    let n = length words in
    if ltb n 2
    then words
    else decrypt_rounds key n (rounds_for n) (u32 (rounds_for n * xxtea_delta)) words
        (get_or words 0 0)
