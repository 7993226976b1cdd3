-- ===== src/Tests/Data.antt =====
-- A device with one connection, whose operating system accepts every write and never has input.
use helia.Common.{true, false, none, some, [], ◌∷◌, replicate}
use helia.Cam.State.{
  Os, timeout, opened, active, CamTlConnection, CamTl, CamSlSession, Cam, resource_manager,
  application_info, conditional_access,
}
use helia.Cam.Monad.{Run, done, fault, stuck}

abbrev pub quiet_os : Os
quiet_os = record { write = λ log bytes. true; read = λ log. timeout; clock = λ log. 0 }

abbrev pub broken_os : Os
broken_os = record { write = λ log bytes. false; read = λ log. timeout; clock = λ log. 0 }

abbrev pub connection_one : CamTlConnection
connection_one = record {
  slot = 0;
  id = 1;
  state = opened;
  has_data = false;
  empty_data = 0;
  last_poll = none;
}

abbrev pub layer : CamTl
layer = record {
  connection_ids = 1;
  connections = (1, connection_one) ∷ [];
  expected_tpdus = 0;
  buffer = replicate 1024 0;
  buffer_size = 0;
  body = 0;
  body_length = 0;
}

abbrev pub session_one : CamSlSession
session_one = record {
  connection = 1;
  resource_id = 0x10041;
  session_nb = 1;
  state = active;
  user_data = some resource_manager;
}

-- No session yet.
abbrev pub idle_cam : Os → Cam
idle_cam os = record {
  os = os;
  log = [];
  tl = layer;
  sl = record { sessions = []; session_ids = 0 };
  applications =
      (0x30041, conditional_access)
      ∷ (0x20041, application_info)
      ∷ (0x10041, resource_manager)
      ∷ [];
  mgr = record { resource_id = 0x10041; sessions = [] };
  info = record { resource_id = 0x20041; sessions = [] };
  cas = record { resource_id = 0x30041; sessions = [] };
  ready = false;
}

-- One session with the resource manager.
abbrev pub busy_cam : Os → Cam
busy_cam os =
    let c = idle_cam os in
    record c {
      sl = record { sessions = (1, session_one) ∷ []; session_ids = 1 };
      mgr = record { resource_id = 0x10041; sessions = 1 ∷ [] };
    }

-- The state that a run ends in; `c` if it does not end.
abbrev pub ending : {A : Type 0} → Cam → Run (A × Cam) → Cam
ending c (done (a, c')) = c'
ending c fault = c
ending c stuck = c
