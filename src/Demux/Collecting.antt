-- ===== src/Demux/Collecting.antt =====
-- gst/gst-demux/tsdemux.c: the payload of a packet goes where there is room for it.
use helia.Common.{
  ℕ, zero, suc, ◌+◌, ◌-◌, ◌*◌, ◌%◌, ◌^◌, ◌≤◌, ◌<◌, ◌≡◌, refl, sym, ap, subst, ◌∙◌, true, false,
  ◌&&◌, Option, none, some, List, ◌++◌, ltb, leb, ◌==◌, arith, length, take, drop, length-append,
  length-take_le, length-drop, All, IsByte,
}
use helia.Parsing.Gives.{Gives, Gives-parsed, Gives-bind, Gives-if}
use helia.Pes.Header.{PesHeader}
use helia.Pes.Bounds.Whole.{Within}
use helia.Demux.{buffer, TsDemuxStream}
use helia.Demux.Queue.{
  StreamPacket, grow, reserve, copy_behind, read_bytes, append_data, is_allocated, start_buffer,
}
use helia.Demux.Sound.{Holds}

-- The payload of a packet is there, with one more byte that may be read, and is below 4 GB.
pub record IsPacket (packet : StreamPacket) : Type 0 where
  pub bytes : All IsByte packet.payload
  pub room : packet.size < length packet.payload
  pub small : packet.size < 2 ^ 32

pow2 : ℕ → ℕ
pow2 zero = 1
pow2 (suc n) = 2 * pow2 n

grow-Gives :
    (rounds allocated wanted : ℕ)
    → 0 < allocated
    → allocated < wanted
    → wanted ≤ 2 ^ 31
    → wanted ≤ allocated * pow2 rounds
    → Gives (λ r. (wanted ≤ r) × (0 < r)) (grow rounds allocated wanted)
unfolding grow pow2
grow-Gives zero allocated wanted some_room less small enough = absurd (omega (arith, less, enough))
grow-Gives (suc rounds) allocated wanted some_room less small enough =
    let double : allocated * 2 % 2 ^ 32 ≡ allocated * 2 = omega (arith, less, small) in
    rw double (
      Gives-if (ltb (allocated * 2) wanted) _ _
        (λ e.
          grow-Gives rounds (allocated * 2) wanted (omega (arith, some_room)) (ground (arith, e))
            small (grind (arith, enough)))
        (λ e. Gives-parsed _ (ground (arith, e), omega (arith, some_room))))

pub read_bytes-Gives :
    (start size : ℕ) (memory : List ℕ)
    → start + size ≤ length memory
    → Gives
        (λ b. (length b ≡ size) × (b ≡ take size (drop start memory)))
        (read_bytes start size memory)
read_bytes-Gives start size memory h =
    Gives-if (leb (start + size) (length memory)) _ _
      (λ e. Gives-parsed _ (
        length-take_le size (drop start memory) (omega (arith, h, length-drop start memory)),
        refl,
      ))
      (λ e. absurd (ground (arith, e, h)))

pub reserve-Gives :
    (size : ℕ) (s : TsDemuxStream)
    → 0 < s.allocated_size
    → s.current_size + size ≤ 2 ^ 31
    → Gives (λ r. (s.current_size + size ≤ r) × (0 < r)) (reserve size s)
unfolding reserve pow2
reserve-Gives size s some_room small =
    let whole : (s.current_size + size) % 2 ^ 32 ≡ s.current_size + size = omega (arith, small) in
    rw whole (
      Gives-if (ltb s.allocated_size (s.current_size + size)) _ _
        (λ e.
          grow-Gives 33 s.allocated_size (s.current_size + size) some_room (ground (arith, e)) small
            (omega (arith, small, some_room)))
        (λ e. Gives-parsed _ (ground (arith, e), some_room)))

pub copy_behind-Gives :
    (allocated current_size : ℕ) (payload : List ℕ) (held : Option (List ℕ)) (bytes : List ℕ)
    → held ≡ some bytes
    → length bytes ≡ current_size
    → current_size + length payload ≤ allocated
    → Gives (λ b. b ≡ bytes ++ payload) (copy_behind allocated current_size payload held)
copy_behind-Gives allocated current_size payload held bytes e full room =
    let inside : (length bytes == current_size && leb (current_size + length payload) allocated)
        ≡ true =
      ground (arith, full, room) in
    subst (λ o. Gives (λ b. b ≡ bytes ++ payload) (copy_behind allocated current_size payload o))
      (sym e) (rw inside (Gives-parsed (bytes ++ payload) refl))

-- A stream with the payload of a packet behind what it held.
pub record Appended (packet : StreamPacket) (s t : TsDemuxStream) : Type 0 where
  pub sound : Holds buffer t
  pub bytes :
      (before : List ℕ)
      → s.bytes ≡ some before
      → t.bytes ≡ some (before ++ take packet.size packet.payload)
  pub state : t.state ≡ s.state
  pub current_size : t.current_size ≡ s.current_size + packet.size
  pub continuity_counter : t.continuity_counter ≡ s.continuity_counter

pub append_data-Appended :
    (packet : StreamPacket) (s : TsDemuxStream)
    → IsPacket packet
    → Holds buffer s
    → s.current_size + packet.size ≤ 2 ^ 31
    → Gives (Appended packet s) (append_data packet s)
unfolding append_data
append_data-Appended packet s p (bytes, held, full, fits, some_room) small =
    Gives-bind _ _ (reserve-Gives packet.size s some_room small) (λ allocated (enough, large).
      Gives-bind _ _ (read_bytes-Gives 0 packet.size packet.payload (omega (arith, p.room)))
        (λ payload (exact, read).
          Gives-bind _ _
            (copy_behind-Gives allocated s.current_size payload s.bytes bytes held full
              (omega (arith, enough, exact)))
            (λ after joined.
              let sum : (s.current_size + packet.size) % 2 ^ 32 ≡ s.current_size + packet.size =
                omega (arith, small) in
              let new : TsDemuxStream = record s {
                allocated_size = allocated;
                bytes = some after;
                current_size = (s.current_size + packet.size) % 2 ^ 32;
              } in
              Gives-parsed new (record {
                sound = (
                  after,
                  refl,
                  ap length joined
                      ∙ length-append bytes payload
                      ∙ omega (arith, full, exact, small),
                  omega (arith, enough, small),
                  large,
                );
                bytes = λ before e.
                    let same : bytes ≡ before = ground (arith, held, e) in
                    ap some (joined ∙ ap (λ b. b ++ payload) same ∙ ap (λ b. before ++ b) read);
                state = refl;
                current_size = sum;
                continuity_counter = refl;
              }))))

-- A stream that collects a unit from its first packet on.
pub record Started (h : PesHeader) (packet : StreamPacket) (s t : TsDemuxStream) : Type 0 where
  pub sound : Holds buffer t
  pub bytes :
      t.bytes ≡ some (take (packet.size - h.header_size) (drop h.header_size packet.payload))
  pub state : t.state ≡ buffer
  pub current_size : t.current_size ≡ packet.size - h.header_size
  pub continuity_counter : t.continuity_counter ≡ s.continuity_counter

pub start_buffer-Started :
    (h : PesHeader) (packet : StreamPacket) (s : TsDemuxStream)
    → IsPacket packet
    → Within packet.size h
    → s.bytes ≡ none
    → Gives (Started h packet s) (start_buffer h packet s)
unfolding start_buffer
start_buffer-Started h packet s p w free =
    let rest = packet.size - h.header_size in
    let exact : (packet.size + 2 ^ 32 - h.header_size) % 2 ^ 32 ≡ rest =
      omega (arith, w.end, p.small) in
    let idle : is_allocated s.bytes ≡ false = ap is_allocated free in
    rw exact (
      Gives-bind _ _
        (read_bytes-Gives h.header_size rest packet.payload (omega (arith, w.end, p.room)))
        (λ payload (full, read). rw idle (
          Gives-parsed _ (record {
            sound = (payload, refl, full, ground arith, ground arith);
            bytes = ap some read;
            state = refl;
            current_size = refl;
            continuity_counter = refl;
          }))))
