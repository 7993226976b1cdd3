-- ===== src/Cam/LengthField/RoundTrip.antt =====
-- Writing a length_field and reading it back.
use helia.Common.{
  ℕ, zero, suc, Bool-cases, ◌+◌, ◌*◌, ◌%◌, ◌^◌, ◌≤◌, ◌<◌, ◌≡◌, ◌≢◌, ◌↔◌, ◌⊎◌, inl, inr, refl, some,
  List, [], ◌∷◌, ◌++◌, length, All, IsByte, arith, ltb, leb,
}
use helia.Cam.LengthField.{
  calc_length_field_size, write_length_field, read_bytes, read_length_field,
}

-- The size that is computed beforehand is the number of bytes that are written, and each is a byte.
pub length-write_length_field : (n : ℕ) → length (write_length_field n) ≡ calc_length_field_size n
unfolding write_length_field
length-write_length_field n = ground arith

pub write_length_field-IsByte : (n : ℕ) → All IsByte (write_length_field n)
unfolding write_length_field
write_length_field-IsByte n = ground arith

-- A length below 128 is read back as it was written, whatever follows the field.
pub read-write_short :
    (n : ℕ) (rest : List ℕ)
    → n < 128
    → read_length_field (write_length_field n ++ rest) ≡ some (1, n)
unfolding write_length_field read_length_field
read-write_short n rest h = ground arith

-- A length from 255 on comes back with the size of its field, but modulo 256: the reader keeps the
-- length in a guint8.
pub read-write_long :
    (n : ℕ) (rest : List ℕ)
    → 255 ≤ n
    → n < 2 ^ 32
    → read_length_field (write_length_field n ++ rest) ≡ some (calc_length_field_size n, n % 256)
unfolding write_length_field read_length_field
read-write_long n rest h k = ground arith

-- A length from 128 to 254 is written in one byte, which the reader takes for a size indicator.
read-write_middle :
    (n : ℕ) (rest : List ℕ)
    → 128 ≤ n
    → n < 255
    → read_length_field (write_length_field n ++ rest) ≢ some (calc_length_field_size n, n)
unfolding write_length_field read_length_field
read-write_middle n rest h k e = ground arith

-- For every 32-bit length, reading the written field gives its size and the length back exactly
-- when the length is below 128 or is 255.
pub read-write_iff :
    (n : ℕ) (rest : List ℕ)
    → n < 2 ^ 32
    → (read_length_field (write_length_field n ++ rest) ≡ some (calc_length_field_size n, n))
      ↔ ((n < 128) ⊎ (n ≡ 255))
unfolding calc_length_field_size
read-write_iff n rest h = (
  λ e. ground (arith, read-write_long n rest, read-write_middle n rest),
  λ c. ground (arith, read-write_long n rest, read-write_short n rest),
)

read_bytes_total :
    (k len : ℕ) (buff : List ℕ)
    → k ≤ length buff
    → len < 256
    → (v : ℕ) × (read_bytes k len buff ≡ some v) × (v < 256)
unfolding read_bytes
read_bytes_total zero len buff h l = (len, refl, l)
read_bytes_total (suc k) len [] h l = absurd (omega arith)
read_bytes_total (suc k) len (b ∷ buff) h l =
    read_bytes_total k ((len * 256 + b) % 256) buff (omega arith) (omega arith)

-- A field that is read from at least five bytes is read within them; it is at most five bytes
-- long, and the length is below 256.
pub read_length_field_total :
    (buff : List ℕ)
    → 5 ≤ length buff
    → (p : ℕ × ℕ) × (read_length_field buff ≡ some p) × (p.0 ≤ 5) × (p.1 < 256)
unfolding read_length_field
read_length_field_total [] h = absurd (omega arith)
read_length_field_total (b ∷ buff) h = elim (Bool-cases (leb b 127)) [
  | inl e ↦ ((1, b), rw e, omega arith, ground arith)
  | inr e ↦ elim (Bool-cases (ltb 4 (b % 128))) [
    | inl f ↦ ((0, 0), rw (e, f), omega arith, omega arith)
    | inr f ↦
        let small : b % 128 ≤ 4 = ground arith in
        let (v, r, bound) = read_bytes_total (b % 128) 0 buff (omega arith) (omega arith) in
        ((b % 128 + 1, v), rw (e, f, r), omega arith, bound)
  ]
]
