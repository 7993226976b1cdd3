-- ===== src/Ts/Programs/Streams.antt =====
-- gst/gst-demux/mpegtsbase.c: which streams a program has after an update by a PMT.
use helia.Common.{
  if-holds, ℕ, ◌≡◌, refl, sym, ap, ◌∙◌, Bool, false, ◌&&◌, ◌||◌, Option, none, some, inl, inr, List,
  [], ◌∷◌, ◌++◌, ◌==◌, if◌then◌else◌, arith, Bool-cases, Option-cases,
}
use helia.Ts.Programs.{PmtStream, Program, Base, program_add_stream}
use helia.Ts.Programs.Update.{stream_in_pmt, has_type, add_new_stream, add_new_streams}

-- Has a list of streams the PID with the type?
unfoldable pub has_entry : ℕ → ℕ → List (ℕ × ℕ) → Bool
has_entry pid stream_type [] = false
has_entry pid stream_type ((a, b) ∷ streams) =
    a == pid && b == stream_type || has_entry pid stream_type streams

-- The list of a program's streams has those that it has by PID.
abbrev pub IsListed : Program → Type 0
IsListed p =
    (pid stream_type : ℕ)
    → has_entry pid stream_type p.stream_list ≡ has_type (p.streams pid) stream_type

-- The type that a PMT gives first to a PID.
unfoldable pub first_type : ℕ → List PmtStream → Option ℕ
first_type pid [] = none
first_type pid (stream ∷ streams) =
    if stream.pid == pid then some stream.stream_type else first_type pid streams

-- The stream that a PID has after an update, by the one it had.
abbrev pub updated : List PmtStream → ℕ → Option ℕ → Option ℕ
updated streams pid none = first_type pid streams
updated streams pid (some old) = if stream_in_pmt streams pid old then some old else none

abbrev pub filled : Option ℕ → Option ℕ → Option ℕ
filled none new = new
filled (some old) new = some old

filled-none : (a : Option ℕ) → filled a none ≡ a
filled-none none = refl
filled-none (some a) = refl

filled-filled : (a b c : Option ℕ) → filled (filled a b) c ≡ filled a (filled b c)
filled-filled none b c = refl
filled-filled (some a) b c = refl

has_entry-add :
    (pid stream_type a b : ℕ) (streams : List (ℕ × ℕ))
    → has_entry pid stream_type (streams ++ ((a, b) ∷ []))
      ≡ (has_entry pid stream_type streams || (a == pid && b == stream_type))
unfolding has_entry
has_entry-add pid stream_type a b [] = ground arith
has_entry-add pid stream_type a b ((c, d) ∷ streams) =
    ground (arith, has_entry-add pid stream_type a b streams)

-- What adding the stream of a PMT does.
record Adds (stream : PmtStream) (p : Program) (after : Program) : Type 0 where
  pub streams :
      (pid : ℕ)
      → after.streams pid
        ≡ filled (p.streams pid) (if stream.pid == pid then some stream.stream_type else none)
  pub listed : IsListed p → IsListed after

filled-old :
    (pid wanted old stream_type : ℕ) (streams : ℕ → Option ℕ)
    → streams pid ≡ some old
    → streams wanted ≡ filled (streams wanted) (if pid == wanted then some stream_type else none)
filled-old pid wanted old stream_type streams e = elim (Option-cases (streams wanted)) [
  | inl free ↦ elim (Bool-cases (pid == wanted)) [
    | inl here ↦
        let same : pid ≡ wanted = ground (arith, here) in
        absurd (ground (arith, sym e ∙ ap streams same ∙ free))
    | inr away ↦ rw (free, away) refl
  ]
  | inr (t, taken) ↦ rw taken refl
]

added-Adds :
    (stream : PmtStream) (p : Program)
    → p.streams stream.pid ≡ none
    → Adds stream p (record p {
      streams = λ k. if k == stream.pid then some stream.stream_type else p.streams k;
      stream_list = p.stream_list ++ ((stream.pid, stream.stream_type) ∷ []);
    })
added-Adds stream p e = record {
  streams = λ pid. elim (Bool-cases (pid == stream.pid)) [
    | inl here ↦ let same : pid ≡ stream.pid = ground (arith, here) in rw (same, e) (ground arith)
    | inr away ↦
        let other : (stream.pid == pid) ≡ false = ground (arith, away) in
        rw (away, other) (sym (filled-none (p.streams pid)))
  ];
  listed = λ l pid t. elim (Bool-cases (pid == stream.pid)) [
    | inl here ↦
        let same : pid ≡ stream.pid = ground (arith, here) in
        let empty : has_entry stream.pid t p.stream_list ≡ false =
          l stream.pid t ∙ ap (λ o. has_type o t) e in
        rw (same, has_entry-add stream.pid t stream.pid stream.stream_type p.stream_list, empty)
          (ground arith)
    | inr away ↦
        let other : (stream.pid == pid) ≡ false = ground (arith, away) in
        rw (has_entry-add pid t stream.pid stream.stream_type p.stream_list, l pid t, away, other)
          (ground arith)
  ];
}

add_new_stream-Adds :
    (stream : PmtStream) (p : Program) (base : Base)
    → Adds stream p (add_new_stream stream p base).0
unfolding program_add_stream
add_new_stream-Adds stream p base = elim (Option-cases (p.streams stream.pid)) [
  | inl e ↦ rw e (added-Adds stream p e)
  | inr (old, e) ↦
      let same : Adds stream p p = record {
        streams = λ pid. filled-old stream.pid pid old stream.stream_type p.streams e;
        listed = λ l. l;
      } in
      rw e (
        if-holds (λ (r : Program × Base). Adds stream p r.0) (old == stream.stream_type) (p, base)
          (p, base) same same)
]

filled-first :
    (pid wanted stream_type : ℕ) (streams : List PmtStream)
    → filled (if pid == wanted then some stream_type else none) (first_type wanted streams)
      ≡ (if pid == wanted then some stream_type else first_type wanted streams)
filled-first pid wanted stream_type streams = elim (Bool-cases (pid == wanted)) [
  | inl here ↦ rw here refl
  | inr away ↦ rw away refl
]

pub add_new_streams-streams :
    (streams : List PmtStream) (p : Program) (base : Base) (pid : ℕ)
    → (add_new_streams streams p base).0.streams pid
      ≡ filled (p.streams pid) (first_type pid streams)
unfolding add_new_streams first_type
add_new_streams-streams [] p base pid = sym (filled-none (p.streams pid))
add_new_streams-streams (stream ∷ streams) p base pid =
    let (after, added) = add_new_stream stream p base in
    let a : Adds stream p after = add_new_stream-Adds stream p base in
    add_new_streams-streams streams after added pid
    ∙ ap (λ o. filled o (first_type pid streams)) (a.streams pid)
    ∙ filled-filled (p.streams pid) _ (first_type pid streams)
    ∙ ap (filled (p.streams pid)) (filled-first stream.pid pid stream.stream_type streams)

pub add_new_streams-IsListed :
    (streams : List PmtStream) (p : Program) (base : Base)
    → IsListed p
    → IsListed (add_new_streams streams p base).0
unfolding add_new_streams
add_new_streams-IsListed [] p base l = l
add_new_streams-IsListed (stream ∷ streams) p base l =
    let (after, added) = add_new_stream stream p base in
    let a : Adds stream p after = add_new_stream-Adds stream p base in
    add_new_streams-IsListed streams after added (a.listed l)
