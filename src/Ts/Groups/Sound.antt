-- ===== src/Ts/Groups/Sound.antt =====
-- gst/gst-demux/mpegtspacketizer.c: what holds of the groups of observations before and after each step.
use helia.Common.{
  ℕ, ◌+◌, ◌<◌, ◌≡◌, refl, sym, subst, ◌∙◌, ◌⊎◌, inl, inr, true, ◌&&◌, Option, none, some, List, [],
  ◌∷◌, ltb, ◌==◌, if◌then◌else◌, All, arith, Bool-cases, Option-cases,
}
use helia.Parsing.Gives.{Gives, Gives-parsed, Gives-bind, Gives-if}
use helia.Ts.Groups.{
  Observation, Group, Current, Groups, pcr_bitrate_needed, pending_at, set_pending, values_at,
  find_group, replace_group, insert_behind, insert_group_after, use_group, append_group_values,
  append_to, close_with, close_current_group, no_current, no_groups,
}

-- The last value of a group has its place.
abbrev pub IsGroup : Group → Type 0
IsGroup g = g.last_value < g.nb_allocated

-- A pointer to a group of the list.
abbrev pub Present : ℕ → List Group → Type 0
Present number [] = ⊥
Present number (g ∷ groups) = (g.number ≡ number) ⊎ Present number groups

abbrev pub Held : Option ℕ → List Group → Type 0
Held none groups = Unit {0}
Held (some number) groups = Present number groups

-- The places of the window in use.
pub record IsCurrent (c : Current) : Type 0 where
  pub first_place : c.first < pcr_bitrate_needed
  pub last_place : c.last < pcr_bitrate_needed
  pub write_place : c.write < pcr_bitrate_needed

pub record IsGroups (g : Groups) : Type 0 where
  pub sound : All IsGroup g.groups
  pub held : Held g.current.group g.groups
  pub window : IsCurrent g.current

-- Sound groups, with all pointers that went to the groups before.
pub record Keeps (before after : List Group) : Type 0 where
  pub sound : All IsGroup after
  pub present : (number : ℕ) → Present number before → Present number after

pub values_at-Gives : (g : Group) → IsGroup g → Gives (λ o. Unit {0}) (values_at g g.last_value)
values_at-Gives g h =
    let inside : ltb g.last_value g.nb_allocated ≡ true = ground (arith, h) in
    rw inside (Gives-parsed (g.values g.last_value) tt)

pub pending_at-Gives :
    (c : Current) (k : ℕ) → k < pcr_bitrate_needed → Gives (λ o. Unit {0}) (pending_at c k)
pending_at-Gives c k h =
    let inside : ltb k pcr_bitrate_needed ≡ true = ground (arith, h) in
    rw inside (Gives-parsed (c.pending k) tt)

pub set_pending-Gives :
    (c : Current) (k : ℕ) (o : Observation)
    → k < pcr_bitrate_needed
    → Gives (λ p. Unit {0}) (set_pending c k o)
set_pending-Gives c k o h =
    let inside : ltb k pcr_bitrate_needed ≡ true = ground (arith, h) in
    rw inside (Gives-parsed _ tt)

pub find_group-Gives :
    (number : ℕ) (groups : List Group)
    → All IsGroup groups
    → Present number groups
    → Gives (λ g. IsGroup g × (g.number ≡ number)) (find_group number groups)
unfolding find_group
find_group-Gives number [] h p = absurd p
find_group-Gives number (g ∷ groups) (h, hs) p =
    Gives-if (g.number == number) _ _ (λ e. Gives-parsed g (h, ground (arith, e)))
      (λ e.
        find_group-Gives number groups hs
          (elim p [ inl here ↦ absurd (ground (arith, e, here)) | inr there ↦ there ]))

pub replace_group-Keeps :
    (new : Group) (groups : List Group)
    → IsGroup new
    → All IsGroup groups
    → Keeps groups (replace_group new groups)
unfolding replace_group
replace_group-Keeps new [] h hs = record { sound = tt; present = λ number p. p }
replace_group-Keeps new (g ∷ groups) h (k, ks) = elim (Bool-cases (g.number == new.number)) [
  | inl e ↦
      let same : g.number ≡ new.number = ground (arith, e) in
      rw e (record {
        sound = (h, ks);
        present = λ number p. elim p [ inl here ↦ inl (sym same ∙ here) | inr there ↦ inr there ];
      })
  | inr e ↦
      let rest = replace_group-Keeps new groups h ks in
      rw e (record {
        sound = (k, rest.sound);
        present = λ number p. elim p [
          | inl here ↦ inl here
          | inr there ↦ inr (rest.present number there)
        ];
      })
]

pub insert_behind-Keeps :
    (new : Group) (number : ℕ) (groups : List Group) (inserted : List Group)
    → IsGroup new
    → All IsGroup groups
    → insert_behind new number groups ≡ some inserted
    → All IsGroup inserted × Present new.number inserted
unfolding insert_behind
insert_behind-Keeps new number [] inserted h hs e = absurd (ground (arith, e))
insert_behind-Keeps new number (g ∷ groups) inserted h (k, ks) e =
    elim (Bool-cases (g.number == number)) [
      | inl here ↦
          let e' : some (g ∷ new ∷ groups) ≡ some inserted = rw here at e in
          let same : g ∷ new ∷ groups ≡ inserted = cc e' in
          rw (← same) ((k, (h, ks)), inr (inl refl))
      | inr away ↦ elim (Option-cases (insert_behind new number groups)) [
        | inl missing ↦ absurd (ground (arith, e, away, missing))
        | inr (rest, found) ↦
            let (sound, present) = insert_behind-Keeps new number groups rest h ks found in
            let same : g ∷ rest ≡ inserted = ground (arith, e, away, found) in
            rw (← same) ((k, sound), inr present)
      ]
    ]

pub insert_group_after_sound :
    (new : Group) (prev : Option ℕ) (groups : List Group)
    → IsGroup new
    → All IsGroup groups
    → All IsGroup (insert_group_after new prev groups)
      × Present new.number (insert_group_after new prev groups)
insert_group_after_sound new none groups h hs = ((h, hs), inl refl)
insert_group_after_sound new (some number) groups h hs =
    elim (Option-cases (insert_behind new number groups)) [
      | inl missing ↦ rw missing ((h, hs), inl refl)
      | inr (inserted, found) ↦ rw found (insert_behind-Keeps new number groups inserted h hs found)
    ]

pub use_group-Gives :
    (g : Group) → IsGroup g → Gives (λ c. IsCurrent c × (c.group ≡ some g.number)) (use_group g)
unfolding use_group no_current
use_group-Gives g h = Gives-bind _ _ (values_at-Gives g h) (λ last u. Gives-parsed _ (
  record { first_place = omega arith; last_place = omega arith; write_place = omega arith },
  refl,
))

append_group_values-Gives :
    (o : Observation) (g : Group)
    → IsGroup g
    → Gives (λ a. IsGroup a × (a.number ≡ g.number)) (append_group_values o g)
unfolding append_group_values
append_group_values-Gives o g h =
    let allocated =
      if g.nb_allocated == g.last_value + 1 then g.nb_allocated + 16 else g.nb_allocated in
    let room : g.last_value + 1 < allocated = ground (arith, h) in
    Gives-bind _ _ (values_at-Gives g h) (λ last u.
      Gives-if (last.offset == o.offset && last.pcr == o.pcr) _ _ (λ same. Gives-parsed g (h, refl))
        (λ other.
          Gives-if (ltb (g.last_value + 1) allocated) _ _ (λ inside. Gives-parsed _ (room, refl))
            (λ outside. absurd (ground (arith, outside, room)))))

pub append_to-Gives :
    (number : ℕ) (o : Observation) (groups : List Group)
    → All IsGroup groups
    → Present number groups
    → Gives (λ after. Keeps groups after) (append_to number o groups)
unfolding append_to
append_to-Gives number o groups h p =
    Gives-bind _ _ (find_group-Gives number groups h p) (λ g (k, e).
      Gives-bind _ _ (append_group_values-Gives o g k)
        (λ a (l, f). Gives-parsed (replace_group a groups) (replace_group-Keeps a groups l h)))

no_current-IsCurrent : IsCurrent no_current
unfolding no_current
no_current-IsCurrent = record {
  first_place = omega arith;
  last_place = omega arith;
  write_place = omega arith;
}

pub no_groups-IsGroups : IsGroups no_groups
unfolding no_groups no_current
no_groups-IsGroups = record { sound = tt; held = tt; window = no_current-IsCurrent }

close_with-IsGroups :
    (number : Option ℕ) (g : Groups)
    → g.current.group ≡ number
    → IsGroups g
    → Gives IsGroups (close_with number g)
unfolding no_current
close_with-IsGroups none g e v = Gives-parsed g v
close_with-IsGroups (some number) g e v =
    let p : Present number g.groups = subst (λ n. Held n g.groups) e v.held in
    Gives-bind _ _ (pending_at-Gives g.current g.current.last v.window.last_place) (λ last u.
      Gives-bind _ _ (append_to-Gives number last g.groups v.sound p) (λ groups k.
        Gives-parsed _ (record { sound = k.sound; held = tt; window = no_current-IsCurrent })))

pub close_current_group-IsGroups :
    (g : Groups) → IsGroups g → Gives IsGroups (close_current_group g)
unfolding close_current_group
close_current_group-IsGroups g v = close_with-IsGroups g.current.group g refl v
