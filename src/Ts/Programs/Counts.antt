-- ===== src/Ts/Programs/Counts.antt =====
-- gst/gst-demux/mpegtsbase.c: the steps of applying a PMT keep a program's number and references.
use helia.Common.{
  if-holds, ℕ, ◌≡◌, ◌<◌, refl, sym, ap, ◌∙◌, Option, none, some, List, [], ◌∷◌, ◌++◌, ◌==◌,
  if◌then◌else◌, lookup, insert, arith,
}
use helia.Ts.Programs.{
  PmtStream, Program, Base, raise, has_stream, set_bit, unset_bit, stream_added, mark_stream,
  update_found, update_table, program_add_stream, program_remove_stream, activate_streams,
}
use helia.Ts.Programs.References.{Counted, Keeps, insert-Counted, program_remove_stream-Keeps}
use helia.Ts.Programs.Update.{
  pmt_stream_in_program, add_new_stream, add_new_streams, remove_streams,
}

-- A program that the table may keep under its number.
pub record Referenced (f : ℕ → ℕ) (p : Program) : Type 0 where
  pub counted : p.patcount ≡ f p.program_number
  pub some_left : 0 < f p.program_number

pub Keeps-Referenced :
    (f : ℕ → ℕ) (p : Program) (base : Base) (r : Program × Base)
    → Keeps p base r
    → Referenced f p
    → Referenced f r.0
Keeps-Referenced f p base r k c = record {
  counted = k.patcount ∙ c.counted ∙ ap f (sym k.number);
  some_left = omega (arith, c.some_left, ap f k.number);
}

refl-Keeps : (p : Program) (base : Base) → Keeps p base (p, base)
refl-Keeps p base = record { number = refl; patcount = refl; programs = refl }

pub program_add_stream-Keeps :
    (pid stream_type : ℕ) (p : Program) (base : Base)
    → Keeps p base (program_add_stream pid stream_type p base)
unfolding program_add_stream
program_add_stream-Keeps pid stream_type p base =
    if-holds (Keeps p base) (has_stream (p.streams pid)) (p, base)
      (
        record p {
          streams = λ k. if k == pid then some stream_type else p.streams k;
          stream_list = p.stream_list ++ ((pid, stream_type) ∷ []);
        },
        raise (stream_added pid) base,
      )
      (refl-Keeps p base) (record { number = refl; patcount = refl; programs = refl })

mark_stream-programs :
    (stream : PmtStream) (base : Base) → (mark_stream stream base).programs ≡ base.programs
mark_stream-programs stream base =
    if-holds (λ (b : Base). b.programs ≡ base.programs) stream.private_section
      (if base.parse_private_sections
        then record base { known_psi = set_bit stream.pid base.known_psi }
        else base)
      (record base {
        known_psi = unset_bit stream.pid base.known_psi;
        is_pes = set_bit stream.pid base.is_pes;
      })
      (if-holds (λ (b : Base). b.programs ≡ base.programs) base.parse_private_sections
        (record base { known_psi = set_bit stream.pid base.known_psi }) base refl refl)
      refl

-- One step after another.
then-Keeps :
    (p : Program) (base : Base) (q : Program) (middle : Base) (r : Program × Base)
    → q.program_number ≡ p.program_number
    → q.patcount ≡ p.patcount
    → middle.programs ≡ base.programs
    → Keeps q middle r
    → Keeps p base r
then-Keeps p base q middle r number patcount programs k = record {
  number = k.number ∙ number;
  patcount = k.patcount ∙ patcount;
  programs = k.programs ∙ programs;
}

pub activate_streams-Keeps :
    (streams : List PmtStream) (p : Program) (base : Base)
    → Keeps p base (activate_streams streams p base)
unfolding activate_streams
activate_streams-Keeps [] p base = refl-Keeps p base
activate_streams-Keeps (stream ∷ streams) p base =
    let marked = mark_stream stream base in
    let (after, added) = program_add_stream stream.pid stream.stream_type p marked in
    let k : Keeps p marked (after, added) =
      program_add_stream-Keeps stream.pid stream.stream_type p marked in
    then-Keeps p base after added (activate_streams streams after added) k.number k.patcount
      (k.programs ∙ mark_stream-programs stream base) (activate_streams-Keeps streams after added)

pub add_new_streams-Keeps :
    (streams : List PmtStream) (p : Program) (base : Base)
    → Keeps p base (add_new_streams streams p base)
unfolding add_new_streams
add_new_streams-Keeps [] p base = refl-Keeps p base
add_new_streams-Keeps (stream ∷ streams) p base =
    let (after, added) = add_new_stream stream p base in
    let k : Keeps p base (after, added) =
      if-holds (Keeps p base) (pmt_stream_in_program p stream) (p, base)
        (program_add_stream stream.pid stream.stream_type p base) (refl-Keeps p base)
        (program_add_stream-Keeps stream.pid stream.stream_type p base) in
    then-Keeps p base after added (add_new_streams streams after added) k.number k.patcount
      k.programs (add_new_streams-Keeps streams after added)

pub remove_streams-Keeps :
    (toremove : List (ℕ × ℕ)) (p : Program) (base : Base)
    → Keeps p base (remove_streams toremove p base)
unfolding remove_streams
remove_streams-Keeps [] p base = refl-Keeps p base
remove_streams-Keeps ((a, b) ∷ toremove) p base =
    let (after, removed) = program_remove_stream a p base in
    let k : Keeps p base (after, removed) = program_remove_stream-Keeps a p base in
    then-Keeps p base after removed (remove_streams toremove after removed) k.number k.patcount
      k.programs (remove_streams-Keeps toremove after removed)

pub insert-same :
    (f : ℕ → ℕ) (p : Program) (programs : List (ℕ × Program))
    → Referenced f p
    → Counted f programs
    → Counted f (insert p.program_number p programs)
insert-same f p programs r =
    insert-Counted p.program_number p f f programs refl r.counted r.some_left (λ n apart. refl)

update_found-Counted :
    (f : ℕ → ℕ) (found : Option Program) (p : Program) (base : Base)
    → Referenced f p
    → Counted f base.programs
    → Counted f (update_found found p base).programs
update_found-Counted f none p base r c = c
update_found-Counted f (some old) p base r c = insert-same f p base.programs r c

pub update_table-Counted :
    (f : ℕ → ℕ) (p : Program) (base : Base)
    → Referenced f p
    → Counted f base.programs
    → Counted f (update_table p base).programs
update_table-Counted f p base =
    update_found-Counted f (lookup p.program_number base.programs) p base
