-- ===== src/Cam/Monad.antt =====
-- Steps over the state of a device.
use helia.Common.{ℕ, Bool, Option, none, some, List, ◌∷◌, if◌then◌else◌, lookup}
use helia.Cam.State.{
  CamReturn, failed, wrote, polled, clocked, slept, Input, Cam, CamTl, CamSl, App, CamAlApplication,
  resource_manager, application_info, conditional_access, CamTlConnection, CamSlSession,
}

-- `fault` is an access outside an array or through a dangling pointer; `stuck` is no behaviour of
-- the code: a loop ran out of fuel.
pub data Run {ℓ} (R : Type ℓ) : Type ℓ where
  done : R → Run R
  fault stuck : Run R

abbrev pub M : Type 0 → Type 0
M A = Cam → Run (A × Cam)

infixl 5 ◌>>=◌
abbrev pub ◌>>=◌ : {B C : Type 0} → M B → (B → M C) → M C
◌>>=◌ first next cam = elim (first cam) [
  | done (b, after) ↦ next b after
  | fault ↦ fault
  | stuck ↦ stuck
]

infixl 5 ◌>>◌
abbrev pub ◌>>◌ : {C : Type 0} → M (Unit {0}) → M C → M C
first >> second = first >>= λ nothing. second

abbrev pub return : {A : Type 0} → A → M A
return a c = done (a, c)

abbrev pub crash : {A : Type 0} → M A
crash c = fault

abbrev pub out_of_fuel : {A : Type 0} → M A
out_of_fuel c = stuck

-- `none` is an access outside an array.
abbrev pub checked : {A : Type 0} → Option A → M A
checked none c = fault
checked (some a) c = done (a, c)

abbrev pub get : M Cam
get c = done (c, c)

abbrev pub modify : (Cam → Cam) → M (Unit {0})
modify f c = done (tt, f c)

abbrev pub modify_tl : (CamTl → CamTl) → M (Unit {0})
modify_tl f c = done (tt, record c { tl = f c.tl })

abbrev pub modify_sl : (CamSl → CamSl) → M (Unit {0})
modify_sl f c = done (tt, record c { sl = f c.sl })

-- `if (CAM_FAILED (ret)) return ret;` and the rest.
abbrev pub unless_failed : CamReturn → M CamReturn → M CamReturn
unless_failed ret rest = if failed ret then return ret else rest

abbrev pub os_write : List ℕ → M Bool
os_write bytes c = done (c.os.write c.log bytes, record c { log = wrote bytes ∷ c.log })

abbrev pub os_read : M Input
os_read c = done (c.os.read c.log, record c { log = polled ∷ c.log })

abbrev pub os_clock : M ℕ
os_clock c = done (c.os.clock c.log, record c { log = clocked ∷ c.log })

abbrev pub os_sleep : M (Unit {0})
os_sleep c = done (tt, record c { log = slept ∷ c.log })

-- Following a pointer to a connection, a session or an application.
abbrev pub the_connection : ℕ → M CamTlConnection
the_connection id c = checked (lookup id c.tl.connections) c

abbrev pub the_session : ℕ → M CamSlSession
the_session nb c = checked (lookup nb c.sl.sessions) c

abbrev pub the_application : App → Cam → CamAlApplication
the_application resource_manager c = c.mgr
the_application application_info c = c.info
the_application conditional_access c = c.cas

abbrev pub set_application : App → CamAlApplication → Cam → Cam
set_application resource_manager a c = record c { mgr = a }
set_application application_info a c = record c { info = a }
set_application conditional_access a c = record c { cas = a }
