-- ===== src/Ts/Section/Store.antt =====
-- gst/gst-demux/mpegtspacketizer.c: bytes that are stored in the memory of a section.
use helia.Common.{
  ℕ, zero, suc, ◌+◌, ◌-◌, ◌%◌, ◌^◌, ◌≤◌, ◌≡◌, refl, sym, ap, subst, Option, some, List, [], ◌∷◌,
  ◌++◌, length, take, drop, length-drop, poke, arith,
}
use helia.Parsing.Gives.{Gives, Gives-parsed}
use helia.Ts.Window.Invariant.{length-take_min}
use helia.Ts.Section.{Stream}
use helia.Ts.Section.Push.{store, store_in}

-- A write within the memory.
poke_within :
    (n : ℕ) (bytes memory : List ℕ)
    → n + length bytes ≤ length memory
    → (after : List ℕ) × (poke n bytes memory ≡ some after)
      × (length after ≡ length memory)
      × (take (n + length bytes) after ≡ take n memory ++ bytes)
unfolding poke
poke_within zero [] memory h = (memory, refl, refl, refl)
poke_within zero (b ∷ bytes) [] h = absurd (omega arith)
poke_within zero (b ∷ bytes) (x ∷ memory) h =
    let (after, written, size, front) = poke_within zero bytes memory (omega arith) in
    let more : 0 + suc (length bytes) ≡ suc (0 + length bytes) = omega arith in
    (b ∷ after, rw written refl, ap suc size, rw more (ap (λ (xs : List ℕ). b ∷ xs) front))
poke_within (suc n) bytes [] h = absurd (omega arith)
poke_within (suc n) bytes (x ∷ memory) h =
    let (after, written, size, front) = poke_within n bytes memory (omega arith) in
    let more : suc n + length bytes ≡ suc (n + length bytes) = omega arith in
    (x ∷ after, rw written refl, ap suc size, rw more (ap (λ (xs : List ℕ). x ∷ xs) front))

-- What a write at the section's offset leaves: the bytes follow those that were there.
pub record Stored (bytes memory : List ℕ) (stream after : Stream) : Type 0 where
  pub written : List ℕ
  pub there : after.section_data ≡ some written
  pub size : length written ≡ length memory
  pub front : take after.section_offset written ≡ take stream.section_offset memory ++ bytes
  pub section_length : after.section_length ≡ stream.section_length
  pub counter : after.continuity_counter ≡ stream.continuity_counter
  pub pid : after.pid ≡ stream.pid
  pub offset : after.offset ≡ stream.offset
  pub section_offset : after.section_offset ≡ stream.section_offset + length bytes

pub store-Stored :
    (bytes memory : List ℕ) (stream : Stream)
    → stream.section_data ≡ some memory
    → length memory ≡ stream.section_length
    → stream.section_length ≤ 4098
    → stream.section_offset + length bytes ≤ stream.section_length
    → Gives (Stored bytes memory stream) (store bytes stream)
unfolding store_in
store-Stored bytes memory stream there size short room =
    let (after, written, same, front) =
      poke_within stream.section_offset bytes memory (omega arith) in
    let fits : (stream.section_offset + length bytes) % 2 ^ 16
        ≡ stream.section_offset + length bytes =
      omega (arith, room, short) in
    subst (λ (o : Option (List ℕ)). Gives (Stored bytes memory stream) (store_in o bytes stream))
      (sym there)
      (rw (written, store_in)
        (Gives-parsed _ (record {
          written = after;
          there = refl;
          size = same;
          front = rw fits front;
          section_length = refl;
          counter = refl;
          pid = refl;
          offset = refl;
          section_offset = fits;
        })))

pub length-take-drop : (n k : ℕ) (xs : List ℕ) → n ≤ length xs - k → length (take n (drop k xs)) ≡ n
length-take-drop n k xs h = length-take_min n (drop k xs) (omega (arith, length-drop k xs))
