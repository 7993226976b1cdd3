-- ===== src/Ts/Groups/Recorded.antt =====
-- gst/gst-demux/mpegtspacketizer.c: `record_pcr` keeps the groups of observations sound.
use helia.Common.{
  ℕ, ◌+◌, ◌-◌, ◌*◌, ◌%◌, ◌^◌, ◌≡◌, refl, subst, Bool, true, false, ◌||◌, Option, none, some, List,
  ltb, ◌==◌, All, arith,
}
use helia.Parsing.Gives.{Gives, Gives-parsed, Gives-bind, Gives-if}
use helia.Ts.Window.{sub64}
use helia.Ts.Groups.{
  Observation, Group, Current, Groups, pcr_msecond, pcr_second, absdiff, replace_group, new_group,
  insert_group_after,
}
use helia.Ts.Groups.Recording.{
  Place, observed, continues, apart, contiguous_offset, set_contiguous_group, set_separate_group,
  is_some, record_place, restart, measure_bitrates, advance, compare_bitrates, observe,
  record_current, record_in, record_pcr,
}
use helia.Ts.Groups.Sound.{
  IsGroup, Present, Held, IsCurrent, IsGroups, Keeps, values_at-Gives, pending_at-Gives,
  set_pending-Gives, find_group-Gives, replace_group-Keeps, insert_group_after_sound,
  use_group-Gives, append_to-Gives,
}
use helia.Ts.Groups.Safe.{IsPlace, find_place-Gives, reevaluate-Gives}

new_group-IsGroup :
    (number pcr offset pcr_offset : ℕ) (estimated : Bool)
    → IsGroup (new_group number pcr offset pcr_offset estimated)
      × ((new_group number pcr offset pcr_offset estimated).number ≡ number)
unfolding new_group
new_group-IsGroup number pcr offset pcr_offset estimated = (omega arith, refl)

-- A new group enters the list and becomes the current one.
entered-IsGroups :
    (new : Group) (prev : Option ℕ) (groups after : List Group) (c : Current) (next : ℕ)
    → IsGroup new
    → All IsGroup groups
    → IsCurrent c
    → c.group ≡ some new.number
    → Keeps (insert_group_after new prev groups) after
    → IsGroups (record { groups = after; current = c; next = next })
entered-IsGroups new prev groups after c next h hs v e k =
    let (sound, present) = insert_group_after_sound new prev groups h hs in
    record { sound = k.sound; held = rw e (k.present new.number present); window = v }

set_contiguous_group-IsGroups :
    (number pcr offset : ℕ) (g : Groups)
    → All IsGroup g.groups
    → Present number g.groups
    → Gives IsGroups (set_contiguous_group number pcr offset g)
unfolding set_contiguous_group
set_contiguous_group-IsGroups number pcr offset g h p =
    Gives-bind _ _ (find_group-Gives number g.groups h p) (λ prev (k, e).
      Gives-bind _ _ (values_at-Gives prev k) (λ last u.
        let new = new_group g.next pcr offset (contiguous_offset prev last pcr) false in
        let (sound, named) =
          new_group-IsGroup g.next pcr offset (contiguous_offset prev last pcr) false in
        let closed : Group = record prev { closed = true } in
        let groups = replace_group closed g.groups in
        let r : Keeps g.groups groups = replace_group-Keeps closed g.groups k h in
        let (entered, present) = insert_group_after_sound new (some number) groups sound r.sound in
        Gives-bind _ _ (use_group-Gives new sound) (λ c (v, f). Gives-parsed _ (
          entered-IsGroups new (some number) groups (insert_group_after new (some number) groups) c
            (g.next + 1) sound r.sound v f (record { sound = entered; present = λ n q. q })))))

module _ (scale : ℕ → ℕ → ℕ → ℕ) (within : ℕ → ℕ → ℕ → Bool) where
  set_separate_group-IsGroups :
      (prev : Option ℕ) (pcr offset : ℕ) (g : Groups)
      → All IsGroup g.groups
      → Gives IsGroups (set_separate_group scale within prev pcr offset g)
  unfolding set_separate_group
  set_separate_group-IsGroups prev pcr offset g h =
      let new = new_group g.next pcr offset 0 (is_some prev) in
      let (sound, named) = new_group-IsGroup g.next pcr offset 0 (is_some prev) in
      let (entered, present) = insert_group_after_sound new prev g.groups sound h in
      Gives-bind _ _ (use_group-Gives new sound) (λ c (v, f).
        Gives-bind _ _
          (reevaluate-Gives scale within c (insert_group_after new prev g.groups) v entered)
          (λ after k.
            Gives-parsed _ (entered-IsGroups new prev g.groups after c (g.next + 1) sound h v f k)))

  record_place-IsGroups :
      (place : Place) (pcr offset : ℕ) (g : Groups)
      → IsPlace place g.groups
      → IsGroups g
      → Gives IsGroups (record_place scale within place pcr offset g)
  record_place-IsGroups observed pcr offset g p v = Gives-parsed g v
  record_place-IsGroups (continues group) pcr offset g (k, p) v =
      Gives-bind _ _ (use_group-Gives group k)
        (λ c (w, e). Gives-parsed _ (record { sound = v.sound; held = rw e p; window = w }))
  record_place-IsGroups (apart prev) pcr offset g p v =
      set_separate_group-IsGroups prev pcr offset g v.sound

  -- A group with its window, of which some pointer is the current one.
  windowed :
      (number : ℕ) (groups after : List Group) (c : Current) (next : ℕ)
      → c.group ≡ some number
      → Present number groups
      → Keeps groups after
      → IsCurrent c
      → IsGroups (record { groups = after; current = c; next = next })
  windowed number groups after c next e p k v = record {
    sound = k.sound;
    held = rw e (k.present number p);
    window = v;
  }

  advance-IsGroups :
      (number : ℕ) (c : Current) (g : Groups)
      → c.group ≡ some number
      → Present number g.groups
      → All IsGroup g.groups
      → IsCurrent c
      → Gives IsGroups (advance scale within c g)
  advance-IsGroups number c g e p h v = Gives-parsed _ (
      windowed number g.groups g.groups (record c { first = (c.first + 1) % 10 }) g.next e p
        (record { sound = h; present = λ n q. q })
        (record {
          first_place = omega arith;
          last_place = v.last_place;
          write_place = v.write_place;
        }))

  compare_bitrates-IsGroups :
      (number : ℕ) (c : Current) (g : Groups)
      → c.group ≡ some number
      → Present number g.groups
      → All IsGroup g.groups
      → IsCurrent c
      → Gives IsGroups (compare_bitrates scale within number c g)
  unfolding compare_bitrates restart measure_bitrates
  compare_bitrates-IsGroups number c g e p h v =
      Gives-bind _ _ (pending_at-Gives c c.first v.first_place) (λ first u.
        Gives-bind _ _ (pending_at-Gives c c.last v.last_place) (λ last w.
          let rated : Current = measure_bitrates scale within first last c in
          Gives-if (ltb pcr_second (sub64 first.pcr c.prev.pcr)) _ _
            (λ f.
              Gives-if
                (ltb rated.prev_bitrate
                  (absdiff rated.cur_bitrate rated.prev_bitrate * 10 % 2 ^ 64))
                _ _
                (λ f. Gives-bind _ _ (append_to-Gives number first g.groups h p) (λ after k.
                  Gives-parsed _ (
                    windowed number g.groups after _ g.next e p k (record {
                      first_place = v.last_place;
                      last_place = v.last_place;
                      write_place = omega arith;
                    }))))
                (λ f. advance-IsGroups number rated g e p h (record {
                  first_place = v.first_place;
                  last_place = v.last_place;
                  write_place = v.write_place;
                })))
            (λ f. advance-IsGroups number c g e p h v)))

  observe-IsGroups :
      (number : ℕ) (o : Observation) (g : Groups)
      → g.current.group ≡ some number
      → Present number g.groups
      → IsGroups g
      → Gives IsGroups (observe scale within number o g)
  unfolding observe
  observe-IsGroups number o g e p v =
      let c = g.current in
      Gives-bind _ _ (set_pending-Gives c c.write o v.window.write_place) (λ pending u.
        let moved : Current = record c {
          pending = pending;
          last_value = o;
          last = (c.last + 1) % 10;
          write = (c.write + 1) % 10;
        } in
        let w : IsCurrent moved = record {
          first_place = v.window.first_place;
          last_place = omega arith;
          write_place = omega arith;
        } in
        Gives-if (moved.write == moved.first) _ _
          (λ f. compare_bitrates-IsGroups number moved g e p v.sound w)
          (λ f. Gives-parsed _ (
            windowed number g.groups g.groups moved g.next e p
              (record { sound = v.sound; present = λ n q. q }) w)))

  record_current-IsGroups :
      (number pcr offset : ℕ) (g : Groups)
      → g.current.group ≡ some number
      → IsGroups g
      → Gives IsGroups (record_current scale within number pcr offset g)
  unfolding record_current
  record_current-IsGroups number pcr offset g e v =
      let p : Present number g.groups = subst (λ n. Held n g.groups) e v.held in
      let c = g.current in
      let corpcr = sub64 pcr c.first_pcr in
      Gives-bind _ _ (pending_at-Gives c c.last v.window.last_place) (λ last u.
        Gives-if (ltb corpcr last.pcr || ltb (500 * pcr_msecond) (corpcr - last.pcr)) _ _
          (λ f. Gives-bind _ _ (append_to-Gives number last g.groups v.sound p) (λ after k.
            set_contiguous_group-IsGroups number pcr offset (record g { groups = after }) k.sound
              (k.present number p)))
          (λ f.
            Gives-if (corpcr == c.last_value.pcr) _ _ (λ f. Gives-parsed g v)
              (λ f. observe-IsGroups number _ g e p v)))

  record_in-IsGroups :
      (group : Option ℕ) (pcr offset : ℕ) (g : Groups)
      → g.current.group ≡ group
      → IsGroups g
      → Gives IsGroups (record_in scale within group pcr offset g)
  record_in-IsGroups none pcr offset g e v =
      Gives-bind _ _ (find_place-Gives pcr offset none g.groups v.sound)
        (λ place p. record_place-IsGroups place pcr offset g p v)
  record_in-IsGroups (some number) pcr offset g e v =
      record_current-IsGroups number pcr offset g e v

  -- Recording an observation gives a result, for any rates: no access outside the window or the values of
  -- a group, no dangling pointer to a group; and sound groups stay so.
  pub record_pcr-IsGroups :
      (pcr offset : ℕ) (g : Groups)
      → IsGroups g
      → Gives IsGroups (record_pcr scale within pcr offset g)
  unfolding record_pcr
  record_pcr-IsGroups pcr offset g v = record_in-IsGroups g.current.group pcr offset g refl v
