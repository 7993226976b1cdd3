-- ===== src/Cam/CaPmt/Descriptors.antt =====
-- gst/gst-dvb/camutils.c: what the loops of a ca_pmt hold of the CA descriptors. The bytes of a descriptor
-- start with its tag and its length, as mpegtsbase.c and tsdemux.c read them, but the code copies as many
-- as the length counts behind these two.
use helia.Common.{
  ℕ, zero, suc, ◌+◌, ◌-◌, ◌*◌, ◌≤◌, ◌≡◌, ◌↔◌, refl, ap, subst, ◌∙◌, Option, none, some, List, [],
  ◌∷◌, ◌++◌, length, take, drop, length-append, length-take_le, length-drop, All, arith, leb, ◌==◌,
  if◌then◌else◌, Bool-cases, inl, inr, Option-cases,
}
use helia.Common.Maybe.{◌>>=◌}
use helia.Cam.CaPmt.{Descriptor, get_ca_descriptors_length, write_ca_descriptors}

-- The tag, the length and the content that it counts.
pub record IsDescriptor (d : Descriptor) : Type 0 where
  pub content : List ℕ
  pub layout : d.bytes ≡ d.tag ∷ d.length ∷ content
  pub counted : length content ≡ d.length

abbrev pub without_last_two : List ℕ → List ℕ
without_last_two bytes = take (length bytes - 2) bytes

-- The CA descriptors, each without its last two bytes.
unfoldable pub shortened : List Descriptor → List ℕ
shortened [] = []
shortened (d ∷ ds) = (if d.tag == 0x09 then without_last_two d.bytes else []) ++ shortened ds

-- A descriptor is its tag with its content. A loop of them.
unfoldable pub read_descriptors : ℕ → List ℕ → Option (List (ℕ × List ℕ))
read_descriptors fuel [] = some []
read_descriptors zero (tag ∷ r) = none
read_descriptors (suc fuel) (tag ∷ []) = none
read_descriptors (suc fuel) (tag ∷ n ∷ r) =
    let rest = read_descriptors fuel (drop n r) in
    if leb n (length r) then (do ds ← rest; some ((tag, take n r) ∷ ds)) else none

-- The CA descriptors of a list.
unfoldable pub ca_descriptors : List Descriptor → List (ℕ × List ℕ)
ca_descriptors [] = []
ca_descriptors (d ∷ ds) =
    let rest = ca_descriptors ds in if d.tag == 0x09 then (d.tag, drop 2 d.bytes) ∷ rest else rest

abbrev loop_size : List (ℕ × List ℕ) → ℕ
loop_size [] = 0
loop_size ((tag, content) ∷ ds) = 2 + length content + loop_size ds

pub write_ca_descriptors-shortened :
    (ds : List Descriptor)
    → All IsDescriptor ds
    → (write_ca_descriptors ds ≡ some (shortened ds))
      × (length (shortened ds) ≡ get_ca_descriptors_length ds)
unfolding write_ca_descriptors get_ca_descriptors_length shortened
write_ca_descriptors-shortened [] h = (refl, refl)
write_ca_descriptors-shortened (d ∷ ds) (h, hs) =
    let (e, l) = write_ca_descriptors-shortened ds hs in
    let whole : length d.bytes ≡ 2 + d.length = ap length h.layout ∙ omega (arith, h.counted) in
    let short : length d.bytes - 2 ≡ d.length = omega (arith, whole) in
    let held : d.length ≤ length d.bytes = omega (arith, whole) in
    elim (Bool-cases (d.tag == 0x09)) [
      | inl c ↦ (
        rw (c, short) (ground (arith, e, held)),
        rw (c, short)
            (omega (
              arith,
              length-append (take d.length d.bytes) (shortened ds),
              length-take_le d.length d.bytes held,
              l,
            )),
      )
      | inr c ↦ (rw (c, e), rw c (omega (arith, l)))
    ]

read_descriptors-size :
    (fuel : ℕ) (bytes : List ℕ) (ds : List (ℕ × List ℕ))
    → read_descriptors fuel bytes ≡ some ds
    → loop_size ds ≡ length bytes
unfolding read_descriptors
read_descriptors-size fuel [] ds e =
    let same : [] ≡ ds = cc e in subst (λ l. loop_size l ≡ 0) same refl
read_descriptors-size zero (tag ∷ r) ds e = absurd (ground (arith, e))
read_descriptors-size (suc fuel) (tag ∷ []) ds e = absurd (ground (arith, e))
read_descriptors-size (suc fuel) (tag ∷ n ∷ r) ds e = elim (Bool-cases (leb n (length r))) [
  | inl c ↦ elim (Option-cases (read_descriptors fuel (drop n r))) [
    | inl z ↦ absurd (ground (arith, e, c, z))
    | inr (rest, z) ↦
        let same : (tag, take n r) ∷ rest ≡ ds = ground (arith, e, c, z) in
        let fits : n ≤ length r = ground (arith, c) in
        subst (λ l. loop_size l ≡ suc (suc (length r))) same
          (omega (
            arith,
            read_descriptors-size fuel (drop n r) rest z,
            length-take_le n r fits,
            length-drop n r,
            fits,
          ))
  ]
  | inr c ↦ absurd (ground (arith, e, c))
]

ca_descriptors-size :
    (ds : List Descriptor)
    → All IsDescriptor ds
    → loop_size (ca_descriptors ds) ≡ length (shortened ds) + 2 * length (ca_descriptors ds)
unfolding ca_descriptors shortened
ca_descriptors-size [] h = refl
ca_descriptors-size (d ∷ ds) (h, hs) =
    let rest = ca_descriptors-size ds hs in
    let whole : length d.bytes ≡ 2 + d.length = ap length h.layout ∙ omega (arith, h.counted) in
    elim (Bool-cases (d.tag == 0x09)) [
      | inl c ↦ rw c (
          omega (
            arith,
            rest,
            whole,
            length-append (without_last_two d.bytes) (shortened ds),
            length-take_le (length d.bytes - 2) d.bytes (omega (arith, whole)),
            length-drop 2 d.bytes,
          ))
      | inr c ↦ rw c rest
    ]

empty_of : {A : Type 0} (xs : List A) → length xs ≡ 0 → xs ≡ []
empty_of [] e = refl
empty_of (x ∷ xs) e = absurd (omega (arith, e))

-- What is written of the CA descriptors is read as them exactly if there are none.
abbrev pub OnlyEmptyRead : List Descriptor → Type 0
OnlyEmptyRead ds =
    (read_descriptors (length (shortened ds)) (shortened ds) ≡ some (ca_descriptors ds))
    ↔ (ca_descriptors ds ≡ [])

pub shortened-OnlyEmptyRead : (ds : List Descriptor) → All IsDescriptor ds → OnlyEmptyRead ds
unfolding read_descriptors
shortened-OnlyEmptyRead ds h =
    let size = ca_descriptors-size ds h in
    (
      λ e.
          let read =
            read_descriptors-size (length (shortened ds)) (shortened ds) (ca_descriptors ds) e in
          empty_of (ca_descriptors ds) (omega (arith, read, size)),
      λ z.
          let none_written : length (shortened ds) ≡ 0 = omega (arith, size, ap loop_size z) in
          let nothing : shortened ds ≡ [] = empty_of (shortened ds) none_written in
          rw (nothing, z) refl,
    )
