-- ===== src/Tests/Clock.antt =====
-- Clock skew and the table of observations at concrete inputs.
use helia.Common.{ℕ, ◌*◌, ◌/◌, ◌^◌, refl, inl, none, arith}
use helia.Parsing.Gives.{Gives}
use helia.Ts.Clock.{Pcr, pcr_new}
use helia.Ts.Clock.Least.{IsWindow}
use helia.Ts.Clock.Skew.{calculate_skew}
use helia.Ts.Clock.Sliding.{pcr_new-IsWindow, calculate_skew-IsWindow}
use helia.Ts.Clock.Table.{Table, IsTable, Got, get_pcr_table, get_pcr_table-Got}

-- gst_util_uint64_scale, rounded down.
abbrev scale : ℕ → ℕ → ℕ → ℕ
scale value num denom = value * num / denom

abbrev empty_table : Table
empty_table = record { observations = λ k. none; pcrtablelut = λ pid. 255; lastobsid = 0 }

empty_table-IsTable : IsTable empty_table
empty_table-IsTable = record { bound = omega arith; free = λ k l. refl; own = λ pid. inl refl }

calculate_skew-IsWindow_example :
    Gives
      (λ (r : Pcr × ℕ). IsWindow (r.0))
      (calculate_skew scale (10 ^ 9) 27000000 5000 (pcr_new 17))
calculate_skew-IsWindow_example =
    calculate_skew-IsWindow scale (10 ^ 9) 27000000 5000 (pcr_new 17) (pcr_new-IsWindow 17)

get_pcr_table-Got_example : Got 0x100 empty_table (get_pcr_table 0x100 empty_table)
get_pcr_table-Got_example = get_pcr_table-Got 0x100 empty_table (omega arith) empty_table-IsTable
