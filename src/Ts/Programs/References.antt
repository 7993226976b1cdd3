-- ===== src/Ts/Programs/References.antt =====
-- gst/gst-demux/mpegtsbase.c: the programs are those that the PAT lists, each with the number of its
-- entries.
use helia.Common.{
  if-holds, ℕ, suc, ◌<◌, ◌≡◌, ◌≢◌, refl, sym, subst, ◌∙◌, inl, inr, none, some, List, [], ◌∷◌, ◌==◌,
  if◌then◌else◌, lookup, insert, remove, lookup-insert, lookup-remove, arith, Bool-cases,
}
use helia.Ts.Programs.{
  PatProgram, PmtStream, Program, Base, unset_bit, raise, has_stream, stream_removed,
  program_remove_stream, pid_in_active_programs, deactivate_streams,
}

-- How often a PAT lists a program.
abbrev pub count : ℕ → List PatProgram → ℕ
count n [] = 0
count n (patp ∷ pat) = if patp.program_number == n then suc (count n pat) else count n pat

-- The table has the programs that are referenced, under their numbers and with their references.
pub record Counted (references : ℕ → ℕ) (programs : List (ℕ × Program)) : Type 0 where
  pub missing : (n : ℕ) → lookup n programs ≡ none → references n ≡ 0
  pub present :
      (n : ℕ) (p : Program)
      → lookup n programs ≡ some p
      → (p.patcount ≡ references n) × (0 < references n) × (p.program_number ≡ n)

pub insert-Counted :
    (k : ℕ) (p : Program) (f g : ℕ → ℕ) (programs : List (ℕ × Program))
    → p.program_number ≡ k
    → p.patcount ≡ g k
    → 0 < g k
    → ((n : ℕ) → n ≢ k → g n ≡ f n)
    → Counted f programs
    → Counted g (insert k p programs)
insert-Counted k p f g programs number counted some_left others c = record {
  missing = λ n e. elim (Bool-cases (k == n)) [
    | inl here ↦ ground (arith, e, here, lookup-insert k n p programs)
    | inr away ↦
        others n (ground (arith, away))
        ∙ c.missing n (ground (arith, e, away, lookup-insert k n p programs))
  ];
  present = λ n q e. elim (Bool-cases (k == n)) [
    | inl here ↦
        let same : k ≡ n = ground (arith, here) in
        let this : p ≡ q = ground (arith, e, here, lookup-insert k n p programs) in
        subst (λ (r : Program). (r.patcount ≡ g n) × (0 < g n) × (r.program_number ≡ n)) this
          (subst (λ (m : ℕ). (p.patcount ≡ g m) × (0 < g m) × (p.program_number ≡ m)) same
            (counted, some_left, number))
    | inr away ↦
        let (a, b, d) = c.present n q (ground (arith, e, away, lookup-insert k n p programs)) in
        let keeps = others n (ground (arith, away)) in (a ∙ sym keeps, omega (arith, b, keeps), d)
  ];
}

-- Tables that are the same but for one number.
abbrev pub SameBut : ℕ → List (ℕ × Program) → List (ℕ × Program) → Type 0
SameBut k programs after = (n : ℕ) → n ≢ k → lookup n after ≡ lookup n programs

pub remove-Counted :
    (k : ℕ) (f g : ℕ → ℕ) (programs after : List (ℕ × Program))
    → g k ≡ 0
    → ((n : ℕ) → n ≢ k → g n ≡ f n)
    → SameBut k programs after
    → Counted f programs
    → Counted g (remove k after)
remove-Counted k f g programs after none_left others same c = record {
  missing = λ n e. elim (Bool-cases (k == n)) [
    | inl here ↦ ground (arith, here, none_left)
    | inr away ↦
        let apart : n ≢ k = ground (arith, away) in
        others n apart
        ∙ c.missing n (sym (same n apart) ∙ ground (arith, e, away, lookup-remove k n after))
  ];
  present = λ n q e. elim (Bool-cases (k == n)) [
    | inl here ↦ absurd (ground (arith, e, here, lookup-remove k n after))
    | inr away ↦
        let apart : n ≢ k = ground (arith, away) in
        let (a, b, d) =
          c.present n q (sym (same n apart) ∙ ground (arith, e, away, lookup-remove k n after)) in
        (a ∙ sym (others n apart), omega (arith, b, others n apart), d)
  ];
}

-- What a step of starting or stopping a program leaves as it was.
pub record Keeps (p : Program) (base : Base) (r : Program × Base) : Type 0 where
  pub number : r.0.program_number ≡ p.program_number
  pub patcount : r.0.patcount ≡ p.patcount
  pub programs : r.1.programs ≡ base.programs

pub program_remove_stream-Keeps :
    (pid : ℕ) (p : Program) (base : Base) → Keeps p base (program_remove_stream pid p base)
unfolding program_remove_stream
program_remove_stream-Keeps pid p base =
    if-holds (Keeps p base) (has_stream (p.streams pid))
      (
        record p {
          streams = λ k. if k == pid then none else p.streams k;
          stream_list = remove pid p.stream_list;
        },
        raise (stream_removed pid) base,
      )
      (p, base) (record { number = refl; patcount = refl; programs = refl })
      (record { number = refl; patcount = refl; programs = refl })

pub deactivate_streams-Keeps :
    (streams : List PmtStream) (p : Program) (base : Base)
    → Keeps p base (deactivate_streams streams p base)
unfolding deactivate_streams
deactivate_streams-Keeps [] p base = record { number = refl; patcount = refl; programs = refl }
deactivate_streams-Keeps (stream ∷ streams) p base =
    let (after, removed) = program_remove_stream stream.pid p base in
    let r : Keeps p base (after, removed) = program_remove_stream-Keeps stream.pid p base in
    let bits : Base =
      if pid_in_active_programs stream.pid removed.programs
      then removed
      else if stream.private_section
      then (if removed.parse_private_sections
          then record removed { known_psi = unset_bit stream.pid removed.known_psi }
          else removed)
      else record removed { is_pes = unset_bit stream.pid removed.is_pes } in
    let kept : bits.programs ≡ removed.programs =
      if-holds (λ (b : Base). b.programs ≡ removed.programs)
        (pid_in_active_programs stream.pid removed.programs) removed
        (if stream.private_section
          then (if removed.parse_private_sections
              then record removed { known_psi = unset_bit stream.pid removed.known_psi }
              else removed)
          else record removed { is_pes = unset_bit stream.pid removed.is_pes })
        refl
        (if-holds (λ (b : Base). b.programs ≡ removed.programs) stream.private_section
          (if removed.parse_private_sections
            then record removed { known_psi = unset_bit stream.pid removed.known_psi }
            else removed)
          (record removed { is_pes = unset_bit stream.pid removed.is_pes })
          (if-holds (λ (b : Base). b.programs ≡ removed.programs) removed.parse_private_sections
            (record removed { known_psi = unset_bit stream.pid removed.known_psi }) removed refl
            refl)
          refl) in
    let rest = deactivate_streams-Keeps streams after bits in
    record {
      number = rest.number ∙ r.number;
      patcount = rest.patcount ∙ r.patcount;
      programs = rest.programs ∙ kept ∙ r.programs;
    }
