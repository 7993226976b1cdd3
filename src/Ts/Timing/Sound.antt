-- ===== src/Ts/Timing/Sound.antt =====
-- gst/gst-demux/mpegtspacketizer.c: sound entries stay so, and give the stream times of timestamps.
use helia.Common.{
  ℕ, ◌≡◌, refl, ap, subst, inl, inr, true, false, not, ◌&&◌, Option, none, some, List, [], ◌∷◌, ltb,
  ◌==◌, All, arith, Bool-cases, Option-cases, if-holds,
}
use helia.Parsing.Gives.{Gives, Gives-parsed, Gives-bind, Gives-if}
use helia.Ts.Window.{sub64}
use helia.Ts.Groups.{add64, Group, Groups}
use helia.Ts.Groups.Sound.{
  IsGroup, Present, Held, IsGroups, values_at-Gives, find_group-Gives, no_groups-IsGroups,
}
use helia.Ts.Clock.{Pcr, is_valid, pcr_new}
use helia.Ts.Clock.Least.{IsWindow}
use helia.Ts.Clock.Sliding.{pcr_new-IsWindow}
use helia.Ts.Clock.Table.{Table, is_null, get_pcr_table}
use helia.Ts.Timing.{
  no_pcr_pid, Timing, Entry, get_entry, store_entry, with_groups, shift_groups, shift_to,
  shift_current, gsttime_to_pcrtime, set_current_pcr_offset,
}
use helia.Ts.Timing.Offsets.{is_empty}
use helia.Ts.Timing.Times.{lock_null, find_suitable, ts_in_groups, pts_to_ts}

-- A sound entry: the window of its skew, and its groups.
pub record IsPcr (pcr : Pcr) : Type 0 where
  pub window : IsWindow pcr
  pub groups : IsGroups pcr.offsets

-- All entries are sound.
abbrev IsTable : Table → Type 0
IsTable t = (k : ℕ) (pcr : Pcr) → t.observations k ≡ some pcr → IsPcr pcr

abbrev pub IsTiming : Timing → Type 0
IsTiming t = IsTable t.table

pub record IsEntry (e : Entry) : Type 0 where
  pub sound : IsPcr e.pcr
  pub timing : IsTiming e.timing

pcr_new-IsPcr : (pid : ℕ) → IsPcr (pcr_new pid)
unfolding pcr_new
pcr_new-IsPcr pid =
    let groups : IsGroups (pcr_new pid).offsets = no_groups-IsGroups in
    record { window = pcr_new-IsWindow pid; groups = groups }

get_pcr_table_sound :
    (pid : ℕ) (t : Table)
    → IsTable t
    → IsTable ((get_pcr_table pid t).0)
      × ((pcr : Pcr) × ((get_pcr_table pid t).0.observations ((get_pcr_table pid t).1) ≡ some pcr))
unfolding get_pcr_table
get_pcr_table_sound pid t v = elim (Option-cases (t.observations (t.pcrtablelut pid))) [
  | inl missing ↦
      let empty : is_null (t.observations (t.pcrtablelut pid)) ≡ true = ap is_null missing in
      let here : (t.lastobsid == t.lastobsid) ≡ true = ground arith in
      rw empty (
        (λ k pcr e. elim (Bool-cases (k == t.lastobsid)) [
          | inl new ↦
              let same : pcr_new pid ≡ pcr = ground (arith, e, new) in
              subst IsPcr same (pcr_new-IsPcr pid)
          | inr old ↦ v k pcr (ground (arith, e, old))
        ]),
        (pcr_new pid, rw here refl),
      )
  | inr (pcr, found) ↦
      let taken : is_null (t.observations (t.pcrtablelut pid)) ≡ false = ap is_null found in
      rw taken (v, (pcr, found))
]

pub get_entry-IsEntry : (pid : ℕ) (t : Timing) → IsTiming t → Gives IsEntry (get_entry pid t)
unfolding get_entry
get_entry-IsEntry pid t v =
    let (table, place) = get_pcr_table pid t.table in
    let (sound, (pcr, found)) = get_pcr_table_sound pid t.table v in
    rw found (Gives-parsed _ (record { sound = sound place pcr found; timing = sound }))

pub store_entry-IsTiming : (e : Entry) → IsEntry e → IsTiming (store_entry e)
store_entry-IsTiming e v k pcr f = elim (Bool-cases (k == e.place)) [
  | inl here ↦ let same : e.pcr ≡ pcr = ground (arith, f, here) in subst IsPcr same v.sound
  | inr away ↦ v.timing k pcr (ground (arith, f, away))
]

find_suitable-Gives :
    (offset : ℕ) (group : Option Group) (groups : List Group)
    → All IsGroup groups
    → Gives (λ g. Unit {0}) (find_suitable offset group groups)
unfolding find_suitable
find_suitable-Gives offset group [] h = Gives-parsed _ tt
find_suitable-Gives offset group (g ∷ groups) (h, hs) =
    Gives-if (ltb offset g.first_offset) _ _ (λ e. Gives-parsed _ tt)
      (λ e. Gives-bind _ _ (values_at-Gives g h) (λ last u.
        Gives-if (ltb offset (add64 g.first_offset last.offset)) _ _ (λ f. Gives-parsed _ tt)
          (λ f. find_suitable-Gives offset (some g) groups hs)))

ts_in_groups-Gives :
    (pts offset : ℕ) (number : Option ℕ) (g : Groups)
    → All IsGroup g.groups
    → Held number g.groups
    → Gives (λ ts. Unit {0}) (ts_in_groups pts offset number g)
ts_in_groups-Gives pts offset none g h p =
    Gives-bind _ _ (find_suitable-Gives offset none g.groups h) (λ group u. Gives-parsed _ tt)
ts_in_groups-Gives pts offset (some number) g h p =
    Gives-bind _ _ (find_group-Gives number g.groups h p) (λ group u. Gives-parsed _ tt)

lock_null-IsPcr :
    (pts pid last_in_time : ℕ) (pcr : Pcr) → IsPcr pcr → IsPcr (lock_null pts pid last_in_time pcr)
unfolding lock_null
lock_null-IsPcr pts pid last_in_time pcr v =
    if-holds IsPcr (not (is_valid pcr.base_time) && pid == no_pcr_pid && is_valid last_in_time)
      (record pcr { base_time = last_in_time; base_pcrtime = pts }) pcr
      (record {
        window = record {
          words = v.window.words;
          filling = v.window.filling;
          full = v.window.full;
        };
        groups = v.groups;
      })
      v

-- The stream time of a timestamp is there: no access outside a group's values, no dangling pointer to a
-- group; and sound entries stay so.
pub pts_to_ts-IsTiming :
    (pts pid : ℕ) (t : Timing) → IsTiming t → Gives (λ r. IsTiming (r.1)) (pts_to_ts pts pid t)
unfolding pts_to_ts
pts_to_ts-IsTiming pts pid t v = Gives-bind _ _ (get_entry-IsEntry pid t v) (λ found w.
    let e : Entry = record found { pcr = lock_null pts pid t.last_in_time found.pcr } in
    let sound : IsPcr e.pcr = lock_null-IsPcr pts pid t.last_in_time found.pcr w.sound in
    let groups = sound.groups in
    let stored : IsTiming (store_entry e) =
      store_entry-IsTiming e (record { sound = sound; timing = w.timing }) in
    Gives-if (t.calculates_skew && is_valid e.pcr.base_time) _ _ (λ f. Gives-parsed _ stored)
      (λ f.
        Gives-if (t.calculates_offset && not (is_empty e.pcr.offsets.groups)) _ _
          (λ g.
            Gives-bind _ _
              (ts_in_groups-Gives pts t.offset e.pcr.offsets.current.group e.pcr.offsets
                groups.sound groups.held)
              (λ ts u. Gives-parsed _ stored))
          (λ g. Gives-parsed _ stored)))

-- An entry with other groups.
pub with_groups-IsEntry :
    (groups : Groups) (e : Entry) → IsEntry e → IsGroups groups → IsEntry (with_groups groups e)
with_groups-IsEntry groups e v h = record {
  sound = record {
    window = record {
      words = v.sound.window.words;
      filling = v.sound.window.filling;
      full = v.sound.window.full;
    };
    groups = h;
  };
  timing = v.timing;
}

shift_groups-All :
    (delta : ℕ) (groups : List Group) → All IsGroup groups → All IsGroup (shift_groups delta groups)
shift_groups-All delta [] h = tt
shift_groups-All delta (g ∷ groups) (h, hs) = (h, shift_groups-All delta groups hs)

shift_groups-Present :
    (delta number : ℕ) (groups : List Group)
    → Present number groups
    → Present number (shift_groups delta groups)
shift_groups-Present delta number [] p = p
shift_groups-Present delta number (g ∷ groups) p = elim p [
  | inl here ↦ inl here
  | inr there ↦ inr (shift_groups-Present delta number groups there)
]

shift_groups-Held :
    (delta : ℕ) (number : Option ℕ) (groups : List Group)
    → Held number groups
    → Held number (shift_groups delta groups)
shift_groups-Held delta none groups p = tt
shift_groups-Held delta (some number) groups p = shift_groups-Present delta number groups p

shift_to_sound :
    (pcr_offset : ℕ) (number : Option ℕ) (groups : List Group)
    → All IsGroup groups
    → Held number groups
    → All IsGroup (shift_to pcr_offset groups) × Held number (shift_to pcr_offset groups)
shift_to_sound pcr_offset number [] h p = (tt, p)
shift_to_sound pcr_offset number (g ∷ groups) h p =
    let delta = sub64 pcr_offset g.pcr_offset in
    (shift_groups-All delta (g ∷ groups) h, shift_groups-Held delta number (g ∷ groups) p)

shift_to-IsGroups :
    (pcr_offset : ℕ) (g : Groups)
    → IsGroups g
    → IsGroups (record g { groups = shift_to pcr_offset g.groups })
shift_to-IsGroups pcr_offset g v =
    let (sound, held) = shift_to_sound pcr_offset g.current.group g.groups v.sound v.held in
    record { sound = sound; held = held; window = v.window }

shift_current-IsEntry :
    (number : Option ℕ) (pcr_offset : ℕ) (e : Entry)
    → IsEntry e
    → IsEntry (shift_current number pcr_offset e)
shift_current-IsEntry none pcr_offset e v = v
shift_current-IsEntry (some number) pcr_offset e v =
    with_groups-IsEntry _ e v (shift_to-IsGroups pcr_offset e.pcr.offsets v.sound.groups)

-- A new start for stream times.
pub set_current_pcr_offset-IsTiming :
    (scale : ℕ → ℕ → ℕ → ℕ) (offset pid : ℕ) (t : Timing)
    → IsTiming t
    → Gives IsTiming (set_current_pcr_offset scale offset pid t)
unfolding set_current_pcr_offset
set_current_pcr_offset-IsTiming scale offset pid t v =
    Gives-bind _ _ (get_entry-IsEntry pid t v) (λ e w. Gives-parsed _ (
      store_entry-IsTiming _
        (shift_current-IsEntry e.pcr.offsets.current.group (gsttime_to_pcrtime scale offset) e w)))
