-- ===== src/Ts/Programs/Stale.antt =====
-- gst/gst-demux/mpegtsbase.c: which streams an update by a PMT takes away, and all that it does.
use helia.Common.{
  if-holds, ℕ, ◌≡◌, refl, sym, ap, ◌∙◌, Bool, true, false, not, ◌&&◌, ◌||◌, Option, none, some, inl,
  inr, List, [], ◌∷◌, ◌==◌, if◌then◌else◌, remove, arith, Bool-cases, Option-cases,
}
use helia.Ts.Programs.{
  PmtStream, Pmt, Program, Base, has_stream, stream_removed, raise, program_updated, update_table,
  program_remove_stream,
}
use helia.Ts.Programs.Update.{
  stream_in_pmt, has_type, add_new_streams, stale_streams, remove_streams, update_program,
}
use helia.Ts.Programs.Streams.{
  has_entry, IsListed, first_type, updated, filled, add_new_streams-streams,
  add_new_streams-IsListed,
}

-- Has a list of streams the PID?
unfoldable has_pid : ℕ → List (ℕ × ℕ) → Bool
has_pid pid [] = false
has_pid pid ((a, b) ∷ streams) = a == pid || has_pid pid streams

-- Has a list of streams the PID with a type that the PMT does not give it?
unfoldable has_stale : ℕ → List PmtStream → List (ℕ × ℕ) → Bool
has_stale pid pmt [] = false
has_stale pid pmt ((a, b) ∷ streams) =
    a == pid && not (stream_in_pmt pmt a b) || has_stale pid pmt streams

program_remove_stream-streams :
    (removed : ℕ) (p : Program) (base : Base) (pid : ℕ)
    → (program_remove_stream removed p base).0.streams pid
      ≡ (if removed == pid then none else p.streams pid)
unfolding program_remove_stream
program_remove_stream-streams removed p base pid = elim (Option-cases (p.streams removed)) [
  | inl e ↦ rw e (elim (Bool-cases (removed == pid)) [
    | inl here ↦
        let same : removed ≡ pid = ground (arith, here) in rw here (sym (ap p.streams same) ∙ e)
    | inr away ↦ rw away refl
  ])
  | inr (old, e) ↦ rw e (ground arith)
]

remove_streams-streams :
    (toremove : List (ℕ × ℕ)) (p : Program) (base : Base) (pid : ℕ)
    → (remove_streams toremove p base).0.streams pid
      ≡ (if has_pid pid toremove then none else p.streams pid)
unfolding remove_streams has_pid
remove_streams-streams [] p base pid = refl
remove_streams-streams ((a, b) ∷ toremove) p base pid =
    let (after, removed) = program_remove_stream a p base in
    let rest = remove_streams-streams toremove after removed pid in
    let one : after.streams pid ≡ (if a == pid then none else p.streams pid) =
      program_remove_stream-streams a p base pid in
    ground (arith, rest, one)

has_pid-stale_streams :
    (pid : ℕ) (pmt : List PmtStream) (streams toremove : List (ℕ × ℕ))
    → has_pid pid (stale_streams pmt streams toremove)
      ≡ (has_stale pid pmt streams || has_pid pid toremove)
unfolding stale_streams has_stale has_pid
has_pid-stale_streams pid pmt [] toremove = refl
has_pid-stale_streams pid pmt ((a, b) ∷ streams) toremove =
    elim (Bool-cases (stream_in_pmt pmt a b)) [
      | inl there ↦ rw there (ground (arith, has_pid-stale_streams pid pmt streams toremove))
      | inr gone ↦
          rw gone (ground (arith, has_pid-stale_streams pid pmt streams ((a, b) ∷ toremove)))
    ]

has_stale-none :
    (pid : ℕ) (pmt : List PmtStream) (streams : List (ℕ × ℕ))
    → ((t : ℕ) → has_entry pid t streams ≡ true → stream_in_pmt pmt pid t ≡ true)
    → has_stale pid pmt streams ≡ false
unfolding has_stale has_entry
has_stale-none pid pmt [] given = refl
has_stale-none pid pmt ((a, b) ∷ streams) given =
    let rest = has_stale-none pid pmt streams (λ t e. given t (ground (arith, e))) in
    elim (Bool-cases (a == pid)) [
      | inl here ↦
          let same : pid ≡ a = ground (arith, here) in
          let there : stream_in_pmt pmt a b ≡ true =
            ap (λ n. stream_in_pmt pmt n b) (sym same) ∙ given b (ground (arith, here)) in
          rw (there, rest) (ground arith)
      | inr away ↦ rw (away, rest) refl
    ]

has_stale-some :
    (pid t : ℕ) (pmt : List PmtStream) (streams : List (ℕ × ℕ))
    → has_entry pid t streams ≡ true
    → stream_in_pmt pmt pid t ≡ false
    → has_stale pid pmt streams ≡ true
unfolding has_stale has_entry
has_stale-some pid t pmt [] e gone = absurd (ground (arith, e))
has_stale-some pid t pmt ((a, b) ∷ streams) e gone = elim (Bool-cases (a == pid && b == t)) [
  | inl here ↦
      let same : a ≡ pid = ground (arith, here) in
      let type : b ≡ t = ground (arith, here) in rw (same, type, gone) (ground arith)
  | inr away ↦
      let rest = has_stale-some pid t pmt streams (ground (arith, e, away)) gone in
      ground (arith, rest)
]

stream_in_pmt-first_type :
    (pid t : ℕ) (pmt : List PmtStream)
    → first_type pid pmt ≡ some t
    → stream_in_pmt pmt pid t ≡ true
unfolding stream_in_pmt first_type
stream_in_pmt-first_type pid t [] e = absurd (ground (arith, e))
stream_in_pmt-first_type pid t (stream ∷ pmt) e = elim (Bool-cases (stream.pid == pid)) [
  | inl here ↦ ground (arith, here, e)
  | inr away ↦
      let rest = stream_in_pmt-first_type pid t pmt (ground (arith, away, e)) in
      ground (arith, rest)
]

has_type-some : (found : Option ℕ) (t : ℕ) → has_type found t ≡ true → found ≡ some t
has_type-some none t e = absurd (ground (arith, e))
has_type-some (some old) t e = ground (arith, e)

settled :
    (old : Option ℕ) (pid : ℕ) (pmt : List PmtStream) (streams : List (ℕ × ℕ))
    → ((t : ℕ) → has_entry pid t streams ≡ has_type (filled old (first_type pid pmt)) t)
    → (if has_stale pid pmt streams then none else filled old (first_type pid pmt))
      ≡ updated pmt pid old
settled none pid pmt streams l =
    rw
      (has_stale-none pid pmt streams (λ t e.
        stream_in_pmt-first_type pid t pmt (has_type-some (first_type pid pmt) t (sym (l t) ∙ e))))
      refl
settled (some old) pid pmt streams l = elim (Bool-cases (stream_in_pmt pmt pid old)) [
  | inl there ↦
      rw
        (
          there,
          has_stale-none pid pmt streams (λ t e.
              let same : old ≡ t = ground (arith, sym (l t) ∙ e) in
              ap (stream_in_pmt pmt pid) (sym same) ∙ there),
        )
        refl
  | inr gone ↦ rw (gone, has_stale-some pid old pmt streams (l old ∙ ground arith) gone) refl
]

has_entry-remove :
    (pid t removed : ℕ) (streams : List (ℕ × ℕ))
    → has_entry pid t (remove removed streams)
      ≡ (if removed == pid then false else has_entry pid t streams)
unfolding has_entry remove
has_entry-remove pid t removed [] = ground arith
has_entry-remove pid t removed ((a, b) ∷ streams) =
    ground (arith, has_entry-remove pid t removed streams)

program_remove_stream-IsListed :
    (removed : ℕ) (p : Program) (base : Base)
    → IsListed p
    → IsListed (program_remove_stream removed p base).0
unfolding program_remove_stream
program_remove_stream-IsListed removed p base l =
    if-holds (λ (r : Program × Base). IsListed r.0) (has_stream (p.streams removed))
      (
        record p {
          streams = λ k. if k == removed then none else p.streams k;
          stream_list = remove removed p.stream_list;
        },
        raise (stream_removed removed) base,
      )
      (p, base)
      (λ pid t. elim (Bool-cases (pid == removed)) [
        | inl here ↦
            let same : (removed == pid) ≡ true = ground (arith, here) in
            rw (has_entry-remove pid t removed p.stream_list, here, same) refl
        | inr away ↦
            let other : (removed == pid) ≡ false = ground (arith, away) in
            rw (has_entry-remove pid t removed p.stream_list, away, other) (l pid t)
      ])
      l

remove_streams-IsListed :
    (toremove : List (ℕ × ℕ)) (p : Program) (base : Base)
    → IsListed p
    → IsListed (remove_streams toremove p base).0
unfolding remove_streams
remove_streams-IsListed [] p base l = l
remove_streams-IsListed ((a, b) ∷ toremove) p base l =
    let (after, removed) = program_remove_stream a p base in
    remove_streams-IsListed toremove after removed (program_remove_stream-IsListed a p base l)

has_pid-all_stale :
    (pid : ℕ) (pmt : List PmtStream) (streams : List (ℕ × ℕ))
    → has_pid pid (stale_streams pmt streams []) ≡ has_stale pid pmt streams
unfolding has_pid
has_pid-all_stale pid pmt streams = ground (arith, has_pid-stale_streams pid pmt streams [])

-- An update by a PMT leaves a PID without a stream with the stream that the PMT gives it first, if any, and
-- a PID with a stream with that one if the PMT gives it the same type, and with none else, if the list of
-- the program's streams has those that it has by PID; so it does again.
pub update_program-updated :
    (pmt : Pmt) (p : Program) (base : Base)
    → IsListed p
    → IsListed (update_program pmt p base).0
      × ((pid : ℕ)
          → (update_program pmt p base).0.streams pid ≡ updated pmt.streams pid (p.streams pid))
unfolding update_program
update_program-updated pmt p base l =
    let start : Program = record p { pmt = some pmt } in
    let (wider, added) = add_new_streams pmt.streams start base in
    let told = raise (program_updated p.program_number) (update_table wider added) in
    let listed : IsListed wider = add_new_streams-IsListed pmt.streams start base l in
    let stale = stale_streams pmt.streams wider.stream_list [] in
    (
      remove_streams-IsListed stale wider told listed,
      λ pid.
          let w : wider.streams pid ≡ filled (p.streams pid) (first_type pid pmt.streams) =
            add_new_streams-streams pmt.streams start base pid in
          remove_streams-streams stale wider told pid
          ∙ ap (λ b. if b then none else wider.streams pid)
              (has_pid-all_stale pid pmt.streams wider.stream_list)
          ∙ rw w (
              settled (p.streams pid) pid pmt.streams wider.stream_list
                (λ t. listed pid t ∙ ap (λ o. has_type o t) w)),
    )
