-- ===== src/Parsing.antt =====
-- Reading bytes of a packet: the macros GST_READ_UINT16_BE and GST_READ_UINT32_BE over a memory, and
-- how the parsers of gst/gst-demux end.
use helia.Common.{ℕ, ◌+◌, ◌*◌, ◌/◌, ◌%◌, ◌^◌, Bool, Option, none, some, List, ◌==◌, get_elem?}
pub mod Meets
pub mod Gives
pub mod Results

-- PESParsingResult and MpegTSPacketizerPacketReturn, with what is valid if it is OK. `fault` is a
-- read outside the memory.
pub data Parse {ℓ} (R : Type ℓ) : Type ℓ where
  parsed : R → Parse R
  bad need_more fault : Parse R

infixl 5 ◌>>=◌
abbrev pub ◌>>=◌ : {B C : Type 0} → Parse B → (B → Parse C) → Parse C
◌>>=◌ (parsed b) next = next b
◌>>=◌ bad next = bad
◌>>=◌ need_more next = need_more
◌>>=◌ fault next = fault

-- Is a bit of the byte set?
abbrev pub bit : ℕ → ℕ → Bool
bit k n = n / 2 ^ k % 2 == 1

module _ (memory : List ℕ) where
  abbrev pub byte : ℕ → Parse ℕ
  byte k = elim (get_elem? memory k) [ none ↦ fault | some b ↦ parsed b ]

  unfoldable pub read_uint16 : ℕ → Parse ℕ
  read_uint16 k = do a ← byte k; b ← byte (k + 1); parsed (a * 2 ^ 8 + b)

  unfoldable pub read_uint32 : ℕ → Parse ℕ
  read_uint32 k = do
    a ← byte k
    b ← byte (k + 1)
    c ← byte (k + 2)
    d ← byte (k + 3)
    parsed (a * 2 ^ 24 + b * 2 ^ 16 + c * 2 ^ 8 + d)
