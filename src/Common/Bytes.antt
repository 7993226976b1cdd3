-- ===== src/Common/Bytes.antt =====
-- Bytes, big-endian words and writes into a buffer of fixed size.
use Prim.Native.Nat.{ℕ, zero, suc, ◌+◌, ◌*◌, ◌/◌, ◌%◌, ◌^◌, ◌<◌}
use mathlib.Core.Path.{◌≡◌, refl, sym, subst}
use mathlib.Core.List.{List, [], ◌∷◌, ◌++◌, append-nil}
use mathlib.Core.Option
use mathlib.Core.Option.{Option, none, some}
use native.Mathlib.Omega.{arith}
use helia.Common.Tests.{ltb, if◌then◌else◌}
use helia.Common.Lists.{length, replicate, length-replicate, replicate-add}

abbrev pub IsByte : ℕ → Type 0
IsByte b = b < 256

-- GST_WRITE_UINT16_BE and GST_WRITE_UINT32_BE, as the bytes that they write.
abbrev pub be16 : ℕ → List ℕ
be16 v = v / 256 % 256 ∷ v % 256 ∷ []

abbrev pub be32 : ℕ → List ℕ
be32 v = v / 2 ^ 24 % 256 ∷ v / 2 ^ 16 % 256 ∷ v / 256 % 256 ∷ v % 256 ∷ []

-- GST_READ_UINT16_BE and GST_READ_UINT32_BE; `none` is a read past the end of the memory.
abbrev pub read_be16 : List ℕ → Option ℕ
read_be16 [] = none
read_be16 (a ∷ []) = none
read_be16 (a ∷ b ∷ r) = some (a * 256 + b)

abbrev pub read_be32 : List ℕ → Option ℕ
read_be32 [] = none
read_be32 (a ∷ []) = none
read_be32 (a ∷ b ∷ []) = none
read_be32 (a ∷ b ∷ c ∷ []) = none
read_be32 (a ∷ b ∷ c ∷ d ∷ r) = some (a * 2 ^ 24 + b * 2 ^ 16 + c * 256 + d)

-- Bytes stored at an offset of a buffer; `none` is a write past its end.
unfoldable pub poke : ℕ → List ℕ → List ℕ → Option (List ℕ)
poke zero [] buf = some buf
poke zero (b ∷ bs) [] = none
poke zero (b ∷ bs) (x ∷ buf) = Option.map (◌∷◌ b) (poke zero bs buf)
poke (suc n) bs [] = if ltb 0 (length bs) then none else some []
poke (suc n) bs (x ∷ buf) = Option.map (◌∷◌ x) (poke n bs buf)

-- A write over exactly the middle part.
pub poke_middle :
    (front bs old back : List ℕ)
    → length bs ≡ length old
    → poke (length front) bs (front ++ (old ++ back)) ≡ some (front ++ (bs ++ back))
unfolding poke
poke_middle [] [] [] back h = refl
poke_middle [] [] (o ∷ old) back h = absurd (omega arith)
poke_middle [] (b ∷ bs) [] back h = absurd (omega arith)
poke_middle [] (b ∷ bs) (o ∷ old) back h = rw (poke_middle [] bs old back (omega arith))
poke_middle (f ∷ front) bs old back h = rw (poke_middle front bs old back h)

pub poke_at :
    (n : ℕ) (front bs old back : List ℕ)
    → n ≡ length front
    → length bs ≡ length old
    → poke n bs (front ++ (old ++ back)) ≡ some (front ++ (bs ++ back))
poke_at n front bs old back e h = rw e (poke_middle front bs old back h)

-- A new buffer of zeros.
abbrev pub zeros : ℕ → List ℕ
zeros n = replicate n 0

pub length-zeros : (n : ℕ) → length (zeros n) ≡ n
length-zeros n = length-replicate {A = ℕ} n 0

pub zeros-add : (m n : ℕ) → zeros (m + n) ≡ zeros m ++ zeros n
zeros-add m n = replicate-add {A = ℕ} m n 0

-- Bytes stored at the end of a new buffer.
pub poke-zeros : (n : ℕ) (bs : List ℕ) → poke n bs (zeros (n + length bs)) ≡ some (zeros n ++ bs)
poke-zeros n bs =
    let old = zeros (length bs) in
    rw (zeros-add n (length bs)) (
      subst (λ (tail : List ℕ). poke n bs (zeros n ++ old) ≡ some (zeros n ++ tail)) (append-nil bs)
        (subst (λ (o : List ℕ). poke n bs (zeros n ++ o) ≡ some (zeros n ++ (bs ++ [])))
          (append-nil old)
          (poke_at n (zeros n) bs old [] (sym (length-zeros n)) (sym (length-zeros (length bs))))))
