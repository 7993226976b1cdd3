-- ===== src/Cam/Device.antt =====
-- gst/gst-dvb/camdevice.c: the device over the three layers. An opened device is the state `Cam`, and
-- a closed one holds nothing. The calls of `read_all` take the fuel of its two loops. A fault of
-- the stack is a fault of the call; so is a loop without fuel.
use helia.Common.{
  ℕ, zero, suc, ◌+◌, ◌%◌, Bool, true, false, not, Option, none, some, [], ◌∷◌, ltb, if◌then◌else◌,
  replicate,
}
use helia.Cam.State.{
  CamReturn, Os, CamAlApplication, resource_manager, application_info, conditional_access, Cam,
}
use helia.Cam.Monad.{Run, done, fault, stuck, M, ◌>>=◌, ◌>>◌, return, get}
use helia.Cam.CaPmt.{Pmt}
use helia.Cam.Transport.{host_buffer_size, create_connection}
use helia.Cam.Receive.{read_all}
use helia.Cam.Spdu.{connection_data_cb}
use helia.Cam.Application.{install}
use helia.Cam.Apps.{conditional_access_set_pmt}
use helia.Cam.Apdu.{al_callbacks}

pub data CamDevice : Type 0 where
  device_closed : CamDevice
  device_open : Cam → CamDevice

unfoldable pub application_new : ℕ → CamAlApplication
application_new resource_id = record { resource_id = resource_id; sessions = [] }

-- The three layers and the three applications, before anything is installed.
unfoldable pub cam_new : Os → Cam
cam_new os = record {
  os = os;
  log = [];
  tl = record {
    connection_ids = 0;
    connections = [];
    expected_tpdus = 0;
    buffer = replicate host_buffer_size 0;
    buffer_size = 0;
    body = 0;
    body_length = 0;
  };
  sl = record { sessions = []; session_ids = 0 };
  applications = [];
  mgr = application_new 0x10041;
  info = application_new 0x20041;
  cas = application_new 0x30041;
  ready = false;
}

-- The loop over CA_GET_CAP: the answer to each call is `none` for an error, or the number of slots.
unfoldable pub wait_for_slots : ℕ → ℕ → (ℕ → Option ℕ) → Option ℕ
wait_for_slots zero attempt caps = elim (caps attempt) [
  | none ↦ none
  | some n ↦ if ltb 0 n then some n else none
]
wait_for_slots (suc count) attempt caps =
    let later = wait_for_slots count (attempt + 1) caps in
    elim (caps attempt) [ none ↦ none | some n ↦ if ltb 0 n then some n else later ]

unfoldable pub connect_slots : ℕ → ℕ → M (Unit {0})
connect_slots zero slot = return tt
connect_slots (suc left) slot = do
  (ret, connection) ← create_connection (slot % 256)
  connect_slots left (slot + 1)

abbrev pub stack_read_all : ℕ → ℕ → Bool → M CamReturn
stack_read_all rounds fuel poll = read_all (connection_data_cb al_callbacks) rounds fuel poll

-- The device after a call on its stack, and what the call gives.
abbrev pub on_stack :
    {A : Type 0} → Run (A × Cam) → (A → Cam → CamDevice × Bool) → Run (CamDevice × Bool)
on_stack (done (a, c)) f = done (f a c)
on_stack fault f = fault
on_stack stuck f = stuck

-- From the capabilities on: install the applications, connect the slots, and poll.
unfoldable pub start_device : ℕ → ℕ → ℕ → M Bool
start_device rounds fuel slots = do
  mgr ← install resource_manager
  info ← install application_info
  cas ← install conditional_access
  connect_slots slots 0
  c ← get
  elim c.tl.connections [
    | [] ↦ return false
    | entry ∷ entries ↦ do ret ← stack_read_all rounds fuel true; return true
  ]

-- `opened` says whether `open` succeeded.
unfoldable pub open_device : ℕ → ℕ → Os → Bool → (ℕ → Option ℕ) → CamDevice → Run (CamDevice × Bool)
open_device rounds fuel os opened caps (device_open c) = done (device_open c, false)
open_device rounds fuel os opened caps device_closed =
    if not opened then done (device_closed, false) else elim (wait_for_slots 10 0 caps) [
      | none ↦ done (device_closed, false)
      | some slots ↦
          on_stack (start_device rounds fuel slots (cam_new os))
            (λ started c. if started then (device_open c, true) else (device_closed, false))
    ]

-- `cam_device_close` on an opened device.
unfoldable pub close_device : CamDevice → CamDevice
close_device device = device_closed

unfoldable pub poll_device : ℕ → ℕ → CamDevice → Run (CamDevice × Bool)
poll_device rounds fuel device_closed = done (device_closed, false)
poll_device rounds fuel (device_open c) =
    on_stack (stack_read_all rounds fuel true c) (λ ret s. (device_open s, true))

unfoldable pub device_ready : CamDevice → Bool
device_ready device_closed = false
device_ready (device_open c) = c.ready

unfoldable pub set_pmt : ℕ → ℕ → Pmt → ℕ → CamDevice → Run (CamDevice × Bool)
set_pmt rounds fuel pmt flag device_closed = done (device_closed, false)
set_pmt rounds fuel pmt flag (device_open c) =
    on_stack ((do sent ← conditional_access_set_pmt pmt flag; stack_read_all rounds fuel false) c)
      (λ ret s. (device_open s, true))
