-- ===== src/Ts/Programs/Pmts.antt =====
-- gst/gst-demux/mpegtsbase.c: applying a PMT keeps the programs that the PAT references.
use helia.Common.{
  if-holds, ℕ, ◌≡◌, ◌≢◌, subst, refl, sym, ap, ◌∙◌, Bool, true, false, ◌&&◌, Option, none, some,
  inl, inr, List, [], ◌∷◌, ◌++◌, ◌==◌, if◌then◌else◌, lookup, insert, remove, lookup-insert,
  lookup-remove, arith, Bool-cases,
}
use helia.Ts.Programs.{
  Pmt, Program, Base, raise, set_bit, program_started, program_updated, new_program, update_table,
  program_add_stream, activate_streams, activate_program, deactivate_program,
}
use helia.Ts.Programs.References.{Counted, SameBut, Keeps}
use helia.Ts.Programs.Tables.{deactivate_program-SameBut}
use helia.Ts.Programs.Update.{
  add_new_streams, stale_streams, remove_streams, update_program, is_program_update,
  is_same_program, replace_program, apply_to_program, apply_pmt,
}
use helia.Ts.Programs.Counts.{
  Referenced, Keeps-Referenced, program_add_stream-Keeps, activate_streams-Keeps,
  add_new_streams-Keeps, remove_streams-Keeps, insert-same, update_table-Counted,
}

activate_program-Counted :
    (f : ℕ → ℕ) (p : Program) (pmt_pid : ℕ) (pmt : Pmt) (initial : Bool) (base : Base)
    → Referenced f p
    → Counted f base.programs
    → Counted f (activate_program p pmt_pid pmt initial base).1.programs
unfolding activate_program
activate_program-Counted f p pmt_pid pmt initial base r c =
    let starting : Program = record p {
      pmt = some pmt;
      pmt_pid = pmt_pid;
      pcr_pid = pmt.pcr_pid;
    } in
    let (streaming, marked) = activate_streams pmt.streams starting base in
    let k : Keeps starting base (streaming, marked) =
      activate_streams-Keeps pmt.streams starting base in
    let (timed, added) = program_add_stream pmt.pcr_pid 255 streaming marked in
    let m : Keeps streaming marked (timed, added) =
      program_add_stream-Keeps pmt.pcr_pid 255 streaming marked in
    let started : Program = record timed { active = true; initial_program = initial } in
    let bits : Base = record added { is_pes = set_bit pmt.pcr_pid added.is_pes } in
    let ready : Referenced f started = record {
      counted = m.patcount ∙ k.patcount ∙ r.counted ∙ ap f (sym (m.number ∙ k.number));
      some_left = omega (arith, r.some_left, ap f (m.number ∙ k.number));
    } in
    if-holds (λ (x : Program × Base). Counted f x.1.programs) p.active (p, base)
      (started, raise (program_started p.program_number) (update_table started bits)) c
      (update_table-Counted f started bits ready
        (subst (Counted f) (sym (m.programs ∙ k.programs)) c))

update_program-Counted :
    (f : ℕ → ℕ) (pmt : Pmt) (p : Program) (base : Base)
    → Referenced f p
    → Counted f base.programs
    → Counted f (update_program pmt p base).1.programs
unfolding update_program
update_program-Counted f pmt p base r c =
    let start : Program = record p { pmt = some pmt } in
    let first : Referenced f start = record { counted = r.counted; some_left = r.some_left } in
    let (wider, added) = add_new_streams pmt.streams start base in
    let k : Keeps start base (wider, added) = add_new_streams-Keeps pmt.streams start base in
    let wide : Referenced f wider = Keeps-Referenced f start base (wider, added) k first in
    let told : Base = raise (program_updated p.program_number) (update_table wider added) in
    let between : Counted f told.programs =
      update_table-Counted f wider added wide (subst (Counted f) (sym k.programs) c) in
    let stale = stale_streams pmt.streams wider.stream_list [] in
    let (after, removed) = remove_streams stale wider told in
    let m : Keeps wider told (after, removed) = remove_streams-Keeps stale wider told in
    update_table-Counted f after removed (Keeps-Referenced f wider told (after, removed) m wide)
      (subst (Counted f) (sym m.programs) between)

Counted-lookup :
    (f : ℕ → ℕ) (before after : List (ℕ × Program))
    → ((n : ℕ) → lookup n after ≡ lookup n before)
    → Counted f before
    → Counted f after
Counted-lookup f before after same c = record {
  missing = λ n e. c.missing n (sym (same n) ∙ e);
  present = λ n p e. c.present n p (sym (same n) ∙ e);
}

-- A program enters a table that may have lost its number.
insert-SameBut :
    (f : ℕ → ℕ) (k : ℕ) (p : Program) (before after : List (ℕ × Program))
    → p.program_number ≡ k
    → Referenced f p
    → SameBut k before after
    → Counted f before
    → Counted f (insert k p after)
insert-SameBut f k p before after number r same c =
    Counted-lookup f (insert k p before) (insert k p after)
      (λ n. elim (Bool-cases (k == n)) [
        | inl here ↦ rw (lookup-insert k n p after, lookup-insert k n p before, here) refl
        | inr away ↦
            let apart : n ≢ k = ground (arith, away) in
            rw (lookup-insert k n p after, lookup-insert k n p before, away) (same n apart)
      ])
      (subst (λ m. Counted f (insert m p before)) number (insert-same f p before r c))

remove-SameBut : (k : ℕ) (programs : List (ℕ × Program)) → SameBut k programs (remove k programs)
remove-SameBut k programs n apart =
    let away : (k == n) ≡ false = ground (arith, apart) in
    rw (lookup-remove k n programs, away) refl

replace_program-Counted :
    (f : ℕ → ℕ) (k pid : ℕ) (old : Program) (base : Base)
    → old.program_number ≡ k
    → Referenced f old
    → Counted f base.programs
    → Counted f (replace_program k pid old base).1.programs
unfolding new_program
replace_program-Counted f k pid old base number r c =
    let p : Program = record (new_program k pid) { patcount = old.patcount } in
    let ready : Referenced f p = record {
      counted = r.counted ∙ ap f number;
      some_left = omega (arith, r.some_left, ap f number);
    } in
    let stolen : Base = record base { programs = remove k base.programs } in
    let (after, done) = deactivate_program old stolen in
    let gone : SameBut k base.programs stolen.programs = remove-SameBut k base.programs in
    let again : SameBut k base.programs (remove old.program_number stolen.programs) = λ n apart.
      remove-SameBut old.program_number stolen.programs n (λ e. apart (e ∙ number))
      ∙ gone n apart in
    let stopped : SameBut k base.programs done.programs =
      λ n apart. deactivate_program-SameBut k old stolen number n apart ∙ gone n apart in
    if-holds (λ (b : Base). Counted f (insert k p b.programs))
      (stolen.can_remove_program stolen.events old) done
      (record stolen {
        programs = remove old.program_number stolen.programs;
        handed_over = stolen.handed_over ++ (old ∷ []);
      })
      (insert-SameBut f k p base.programs done.programs refl ready stopped c)
      (insert-SameBut f k p base.programs (remove old.program_number stolen.programs) refl ready
        again c)

apply_to_program-Counted :
    (f : ℕ → ℕ) (pid k : ℕ) (pmt : Pmt) (found : Option Program) (base : Base)
    → lookup k base.programs ≡ found
    → Counted f base.programs
    → Counted f (apply_to_program pid k pmt found base).programs
unfolding new_program
apply_to_program-Counted f pid k pmt none base e c = c
apply_to_program-Counted f pid k pmt (some old) base e c =
    let (counted, some_left, number) = c.present k old e in
    let r : Referenced f old = record {
      counted = counted ∙ ap f (sym number);
      some_left = omega (arith, some_left, ap f number);
    } in
    let (program, replaced) = replace_program k pid old base in
    let ready : Referenced f program = record { counted = counted; some_left = some_left } in
    let P : Base → Type 0 = λ b. Counted f b.programs in
    let anew : Base =
      if old.active
      then (activate_program program pid pmt false replaced).1
      else (activate_program old pid pmt true base).1 in
    if-holds P (base.streams_aware && is_program_update old pid pmt) (update_program pmt old base).1
      (if is_same_program old pid pmt then base else anew)
      (update_program-Counted f pmt old base r c)
      (if-holds P (is_same_program old pid pmt) base anew c (
        if-holds P old.active (activate_program program pid pmt false replaced).1
          (activate_program old pid pmt true base).1
          (activate_program-Counted f program pid pmt false replaced ready
            (replace_program-Counted f k pid old base number r c))
          (activate_program-Counted f old pid pmt true base r c)))

-- Applying a PMT keeps the programs those that are referenced, with the number of their references, whether
-- it updates a program, replaces it, starts it or changes nothing.
pub apply_pmt-Counted :
    (f : ℕ → ℕ) (pid program_number : ℕ) (pmt : Option Pmt) (base : Base)
    → Counted f base.programs
    → Counted f (apply_pmt pid program_number pmt base).0.programs
unfolding apply_pmt
apply_pmt-Counted f pid program_number none base c = c
apply_pmt-Counted f pid program_number (some pmt) base c =
    let found = lookup program_number base.programs in
    if-holds (λ (x : Base × Bool). Counted f x.0.programs) base.seen_pat
      (apply_to_program pid program_number pmt found base, true)
      (
        record base { section_streams = λ k. if k == pid then none else base.section_streams k },
        true,
      )
      (apply_to_program-Counted f pid program_number pmt found base refl c) c
