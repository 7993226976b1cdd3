-- ===== src/Ts/Programs/Tables.antt =====
-- gst/gst-demux/mpegtsbase.c: applying a PAT references its programs and drops those of the old one.
use helia.Common.{
  if-holds, ℕ, suc, ◌+◌, ◌-◌, ◌<◌, ◌≡◌, ◌≢◌, refl, sym, ap, ◌∙◌, inl, inr, true, false, Option,
  none, some, List, [], ◌∷◌, ◌++◌, ltb, ◌==◌, if◌then◌else◌, lookup, insert, remove, lookup-insert,
  arith, Bool-cases, Option-cases,
}
use helia.Ts.Programs.{
  PatProgram, Pmt, Program, Base, set_bit, unset_bit, raise, new_program, update_found,
  update_table, program_stopped, program_remove_stream, pid_in_active_programs, deactivate_streams,
  deactivate_pmt, deactivate_program, add_program, move_pmt, reference, activate_pat, drop_program,
  unreference, deactivate_pat, deactivate_old, apply_pat, no_pid,
}
use helia.Ts.Programs.References.{
  count, Counted, insert-Counted, remove-Counted, SameBut, Keeps, program_remove_stream-Keeps,
  deactivate_streams-Keeps,
}

deactivate_pmt-Keeps :
    (pmt : Option Pmt) (p : Program) (base : Base) → Keeps p base (deactivate_pmt pmt p base)
deactivate_pmt-Keeps none p base = record { number = refl; patcount = refl; programs = refl }
deactivate_pmt-Keeps (some pmt) p base =
    let (stopped, bits) = deactivate_streams pmt.streams p base in
    let r : Keeps p base (stopped, bits) = deactivate_streams-Keeps pmt.streams p base in
    let (after, removed) = program_remove_stream p.pcr_pid stopped bits in
    let q : Keeps stopped bits (after, removed) =
      program_remove_stream-Keeps p.pcr_pid stopped bits in
    record {
      number = q.number ∙ r.number;
      patcount = q.patcount ∙ r.patcount;
      programs =
          if-holds (λ (b : Base). b.programs ≡ removed.programs)
            (pid_in_active_programs p.pcr_pid removed.programs) removed
            (record removed { is_pes = unset_bit p.pcr_pid removed.is_pes }) refl refl
          ∙ q.programs
          ∙ r.programs;
    }

update_found-SameBut :
    (found : Option Program) (k : ℕ) (p : Program) (base : Base)
    → p.program_number ≡ k
    → SameBut k base.programs (update_found found p base).programs
update_found-SameBut none k p base number n apart = refl
update_found-SameBut (some old) k p base number n apart =
    let away : (p.program_number == n) ≡ false = ground (arith, number, apart) in
    rw (lookup-insert p.program_number n p base.programs, away) refl

update_table-SameBut :
    (k : ℕ) (p : Program) (base : Base)
    → p.program_number ≡ k
    → SameBut k base.programs (update_table p base).programs
update_table-SameBut k p base =
    update_found-SameBut (lookup p.program_number base.programs) k p base

pub deactivate_program-SameBut :
    (k : ℕ) (p : Program) (base : Base)
    → p.program_number ≡ k
    → SameBut k base.programs (deactivate_program p base).1.programs
unfolding deactivate_program
deactivate_program-SameBut k p base number n apart =
    let stopping : Program = record p { active = false } in
    let started = update_table stopping base in
    let (after, done) = deactivate_pmt p.pmt stopping started in
    let r : Keeps stopping started (after, done) = deactivate_pmt-Keeps p.pmt stopping started in
    if-holds (λ (x : Program × Base). lookup n x.1.programs ≡ lookup n base.programs) p.active
      (after, raise (program_stopped p.program_number) (update_table after done)) (p, base)
      (update_table-SameBut k after done (r.number ∙ number) n apart
        ∙ ap (lookup n) r.programs
        ∙ update_table-SameBut k stopping base number n apart)
      refl

-- An entry of the new PAT counts once more.
reference-Counted :
    (patp : PatProgram) (f : ℕ → ℕ) (base : Base)
    → Counted f base.programs
    → Counted
        (λ n. if patp.program_number == n then suc (f n) else f n)
        (reference patp (lookup patp.program_number base.programs) base).programs
unfolding add_program new_program
reference-Counted patp f base c =
    let k = patp.program_number in
    let here : (k == k) ≡ true = ground arith in
    let more : ℕ → ℕ = λ n. if k == n then suc (f n) else f n in
    let others : (n : ℕ) → n ≢ k → more n ≡ f n = λ n apart. ground (arith, apart) in
    elim (Option-cases (lookup k base.programs)) [
      | inl e ↦ rw e (
          insert-Counted k _ f more base.programs refl (rw here (sym (ap suc (c.missing k e))))
            (rw here (omega arith)) others c)
      | inr (p, e) ↦
          let (counted, some_left, number) = c.present k p e in
          rw e (
            insert-Counted k _ f more (move_pmt patp.network_or_program_map_pid p base).programs
              number (rw here (omega (arith, counted))) (rw here (omega arith)) others
              (if-holds (λ (b : Base). Counted f b.programs)
                (p.pmt_pid == patp.network_or_program_map_pid) base
                (record base {
                  known_psi = set_bit patp.network_or_program_map_pid (
                      if p.pmt_pid == no_pid
                      then base.known_psi
                      else unset_bit p.pmt_pid base.known_psi);
                })
                c c))
    ]

-- An entry of the old PAT counts once less.
unreference-Counted :
    (patp : PatProgram) (f : ℕ → ℕ) (base : Base)
    → 0 < f patp.program_number
    → Counted f base.programs
    → Counted
        (λ n. if patp.program_number == n then f n - 1 else f n)
        (unreference patp (lookup patp.program_number base.programs) base).programs
unfolding drop_program
unreference-Counted patp f base listed c =
    let k = patp.program_number in
    let here : (k == k) ≡ true = ground arith in
    let less : ℕ → ℕ = λ n. if k == n then f n - 1 else f n in
    let others : (n : ℕ) → n ≢ k → less n ≡ f n = λ n apart. ground (arith, apart) in
    elim (Option-cases (lookup k base.programs)) [
      | inl e ↦ absurd (omega (arith, listed, c.missing k e))
      | inr (p, e) ↦
          let (counted, some_left, number) = c.present k p e in
          let q : Program = record p { patcount = p.patcount - 1 } in
          let stored : Base = record base { programs = insert k q base.programs } in
          let replaced : SameBut k base.programs stored.programs = λ n apart.
            let away : (k == n) ≡ false = ground (arith, apart) in
            rw (lookup-insert k n q base.programs, away) refl in
          let (after, done) = deactivate_program q stored in
          let stopped : SameBut k base.programs done.programs =
            λ n apart. deactivate_program-SameBut k q stored number n apart ∙ replaced n apart in
          rw e (elim (Bool-cases (ltb 0 (p.patcount - 1))) [
            | inl kept ↦ rw kept (
                insert-Counted k q f less base.programs number (rw here (omega (arith, counted)))
                  (rw here (ground (arith, kept, counted))) others c)
            | inr dropped ↦
                let gone : less k ≡ 0 = rw here (ground (arith, dropped, counted)) in
                rw dropped (
                  if-holds (λ (b : Base). Counted less b.programs)
                    (stored.can_remove_program stored.events q)
                    (record done { programs = remove k done.programs })
                    (record stored {
                      programs = remove k stored.programs;
                      handed_over = stored.handed_over ++ (q ∷ []);
                    })
                    (remove-Counted k f less base.programs done.programs gone others stopped c)
                    (remove-Counted k f less base.programs stored.programs gone others replaced c))
          ])
    ]

Counted-same :
    (f g : ℕ → ℕ) (programs : List (ℕ × Program))
    → ((n : ℕ) → g n ≡ f n)
    → Counted f programs
    → Counted g programs
Counted-same f g programs same c = record {
  missing = λ n e. same n ∙ c.missing n e;
  present =
      λ n p e. let (a, b, d) = c.present n p e in (a ∙ sym (same n), omega (arith, b, same n), d);
}

activate_pat-Counted :
    (pat : List PatProgram) (f : ℕ → ℕ) (base : Base)
    → Counted f base.programs
    → Counted (λ n. f n + count n pat) (activate_pat pat base).programs
unfolding activate_pat
activate_pat-Counted [] f base c = Counted-same f _ base.programs (λ n. omega arith) c
activate_pat-Counted (patp ∷ pat) f base c =
    Counted-same (λ n. (if patp.program_number == n then suc (f n) else f n) + count n pat) _ _
      (λ n. ground arith) (activate_pat-Counted pat _ _ (reference-Counted patp f base c))

deactivate_pat-Counted :
    (pat : List PatProgram) (f : ℕ → ℕ) (base : Base)
    → Counted (λ n. f n + count n pat) base.programs
    → Counted f (deactivate_pat pat base).programs
unfolding deactivate_pat
deactivate_pat-Counted [] f base c = Counted-same _ f base.programs (λ n. omega arith) c
deactivate_pat-Counted (patp ∷ pat) f base c =
    let listed : 0 < f patp.program_number + count patp.program_number (patp ∷ pat) =
      ground arith in
    deactivate_pat-Counted pat f _ (
      Counted-same _ (λ n. f n + count n pat) _ (λ n. ground arith)
        (unreference-Counted patp (λ n. f n + count n (patp ∷ pat)) base listed c))

-- The references of the PAT that is in force.
abbrev pub references : Option (List PatProgram) → ℕ → ℕ
references none n = 0
references (some pat) n = count n pat

deactivate_old-Counted :
    (old : Option (List PatProgram)) (f : ℕ → ℕ) (base : Base)
    → Counted (λ n. f n + references old n) base.programs
    → Counted f (deactivate_old old base).programs
deactivate_old-Counted none f base c = Counted-same _ f base.programs (λ n. omega arith) c
deactivate_old-Counted (some old) f base c = deactivate_pat-Counted old f base c

-- Applying a PAT, if the programs were those of the old one with the number of their entries, leaves those
-- of the new one with theirs, also if a PAT lists a program more than once.
pub apply_pat-Counted :
    (pat : List PatProgram) (base : Base)
    → Counted (references base.pat) base.programs
    → Counted (references (some pat)) (apply_pat (some pat) base).0.programs
unfolding apply_pat
apply_pat-Counted pat base c =
    let start : Base = record base { pat = some pat } in
    deactivate_old-Counted base.pat (references (some pat)) (activate_pat pat start) (
      Counted-same _ _ _ (λ n. omega arith)
        (activate_pat-Counted pat (references base.pat) start c))
