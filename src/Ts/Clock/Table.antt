-- ===== src/Ts/Clock/Table.antt =====
-- gst/gst-demux/mpegtspacketizer.c: the table of PCR observations by PID.
use helia.Common.{
  ℕ, ◌+◌, ◌%◌, ◌≤◌, ◌<◌, ◌≡◌, ◌≢◌, refl, sym, ◌⊎◌, inl, inr, Bool, true, false, Option, none, some,
  ltb, ◌==◌, if◌then◌else◌, arith, Bool-cases,
}
use helia.Ts.Clock.{Pcr, pcr_new}

-- The fields of MpegTSPacketizer2 for it. The arrays have 256 and 8192 places; `none` is NULL.
pub record Table : Type 0 where
  pub observations : ℕ → Option Pcr
  pub pcrtablelut : ℕ → ℕ
  pub lastobsid : ℕ

abbrev pub is_null : Option Pcr → Bool
is_null none = true
is_null (some pcr) = false

-- The table, and the place of the PID's entry.
unfoldable pub get_pcr_table : ℕ → Table → Table × ℕ
get_pcr_table pid t =
    if is_null (t.observations (t.pcrtablelut pid))
    then (
      record {
        observations = λ k. if k == t.lastobsid then some (pcr_new pid) else t.observations k;
        pcrtablelut = λ p. if p == pid then t.lastobsid else t.pcrtablelut p;
        lastobsid = (t.lastobsid + 1) % 256;
      },
      t.lastobsid,
    )
    else (t, t.pcrtablelut pid)

unfoldable pub flush_observations : Table → Table
flush_observations t = record {
  observations = λ k. if ltb k t.lastobsid then none else t.observations k;
  pcrtablelut = λ p. 255;
  lastobsid = 0;
}

-- The places before `lastobsid` are taken, the others are free; a PID has a place with its own entry, or
-- the last one, which is free.
pub record IsTable (t : Table) : Type 0 where
  pub bound : t.lastobsid ≤ 255
  pub free : (k : ℕ) → t.lastobsid ≤ k → t.observations k ≡ none
  pub own :
      (pid : ℕ)
      → (t.pcrtablelut pid ≡ 255)
        ⊎ ((t.pcrtablelut pid < t.lastobsid)
            × ((pcr : Pcr) × (t.observations (t.pcrtablelut pid) ≡ some pcr) × (pcr.pid ≡ pid)))

-- What looking up a PID gives: its own entry, and the entries of the other PIDs as they were.
pub record Got (pid : ℕ) (t : Table) (r : Table × ℕ) : Type 0 where
  pub sound : IsTable (r.0)
  pub entry : (pcr : Pcr) × (r.0.observations (r.1) ≡ some pcr) × (pcr.pid ≡ pid)
  pub looked_up : r.0.pcrtablelut pid ≡ r.1
  pub others :
      (other : ℕ)
      → other ≢ pid
      → r.0.observations (r.0.pcrtablelut other) ≡ t.observations (t.pcrtablelut other)

-- Looking up a PID while less than 255 places are taken gives the PID's own entry, and leaves those of
-- the others alone.
pub get_pcr_table-Got :
    (pid : ℕ) (t : Table) → t.lastobsid < 255 → IsTable t → Got pid t (get_pcr_table pid t)
unfolding get_pcr_table pcr_new
get_pcr_table-Got pid t room v = elim (v.own pid) [
  | inr (l, (pcr, e, own)) ↦
      let taken : is_null (t.observations (t.pcrtablelut pid)) ≡ false = ground (arith, e) in
      rw taken
        (record { sound = v; entry = (pcr, e, own); looked_up = refl; others = λ other n. refl })
  | inl last ↦
      let empty : is_null (t.observations (t.pcrtablelut pid)) ≡ true =
        ground (arith, last, v.free (t.pcrtablelut pid) (omega (arith, last, room))) in
      let same : (pid == pid) ≡ true = ground arith in
      let place : (t.lastobsid == t.lastobsid) ≡ true = ground arith in
      let next : (t.lastobsid + 1) % 256 ≡ t.lastobsid + 1 = omega (arith, room) in
      rw (empty, next)
        (record {
          sound = record {
            bound = omega (arith, room);
            free = λ k l.
                let later : (k == t.lastobsid) ≡ false = ground (arith, l) in
                rw later (v.free k (omega (arith, l)));
            own = λ p. elim (Bool-cases (p == pid)) [
              | inl here ↦
                  rw here
                    (inr (omega arith, (pcr_new pid, rw place refl, sym (ground (arith, here)))))
              | inr away ↦ rw away (elim (v.own p) [
                | inl unused ↦ inl unused
                | inr (l, (pcr, e, own)) ↦
                    let older : (t.pcrtablelut p == t.lastobsid) ≡ false = ground (arith, l) in
                    inr (omega (arith, l), (pcr, rw older e, own))
              ])
            ];
          };
          entry = (pcr_new pid, rw place refl, refl);
          looked_up = rw same refl;
          others = λ other n.
              let away : (other == pid) ≡ false = ground (arith, n) in
              let older : (t.pcrtablelut other == t.lastobsid) ≡ false = elim (v.own other) [
                | inl unused ↦ ground (arith, unused, room)
                | inr (l, entry) ↦ ground (arith, l)
              ] in
              rw (away, older) refl;
        })
]

-- A flushed table is empty.
pub flush_observations-IsTable : (t : Table) → IsTable t → IsTable (flush_observations t)
unfolding flush_observations
flush_observations-IsTable t v = record {
  bound = omega arith;
  free = λ k l. elim (Bool-cases (ltb k t.lastobsid)) [
    | inl e ↦ rw e refl
    | inr e ↦ rw e (v.free k (ground (arith, e)))
  ];
  own = λ pid. inl refl;
}
