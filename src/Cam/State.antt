-- ===== src/Cam/State.antt =====
-- gst/gst-dvb/camutils.h, camtransport.h, camsession.h, camapplication.h: the state of one opened
-- CamDevice, with the objects of its three layers and its three applications.
-- A pointer to a connection or to a session is its id or number, by which its table keeps it; a
-- pointer to an application is one of the three applications that a device creates.
use helia.Common.{ℕ, Bool, true, false, Option, List}

-- CamReturn; all but `ok` are negative.
pub data CamReturn : Type 0 where
  ok error : CamReturn
  transport_error transport_too_many_connections transport_timeout transport_poll : CamReturn
  session_error session_too_many_sessions : CamReturn
  application_error : CamReturn

-- CAM_FAILED.
abbrev pub failed : CamReturn → Bool
failed CamReturn.ok = false
failed _ = true

-- What the descriptor's `select` and `read` give: nothing in time, an error, or bytes.
pub data Input : Type 0 where
  timeout read_failure : Input
  received : List ℕ → Input

-- What the stack asked of the operating system, newest first.
pub data Event : Type 0 where
  wrote : List ℕ → Event
  polled clocked slept : Event

-- The operating system, which is free to answer by all that went before: whether `write` succeeds,
-- what `select` and `read` give, and the time in microseconds.
pub record Os : Type 0 where
  pub write : List Event → List ℕ → Bool
  pub read : List Event → Input
  pub clock : List Event → ℕ

pub data ConnectionState : Type 0 where
  closed in_creation opened in_deletion : ConnectionState

pub record CamTlConnection : Type 0 where
  pub slot : ℕ
  pub id : ℕ
  pub state : ConnectionState
  pub has_data : Bool
  pub empty_data : ℕ
  -- The start of the timer, once there is one.
  pub last_poll : Option ℕ

pub record CamTl : Type 0 where
  pub connection_ids : ℕ
  pub connections : List (ℕ × CamTlConnection)
  pub expected_tpdus : ℕ
  pub buffer : List ℕ
  pub buffer_size : ℕ
  -- The offset of the body in the buffer.
  pub body : ℕ
  pub body_length : ℕ

pub data SessionState : Type 0 where
  idle opening active closing : SessionState

pub data App : Type 0 where
  resource_manager application_info conditional_access : App

pub record CamSlSession : Type 0 where
  pub connection : ℕ
  pub resource_id : ℕ
  pub session_nb : ℕ
  pub state : SessionState
  pub user_data : Option App

pub record CamSl : Type 0 where
  pub sessions : List (ℕ × CamSlSession)
  pub session_ids : ℕ

pub record CamAlApplication : Type 0 where
  pub resource_id : ℕ
  pub sessions : List ℕ

pub record Cam : Type 0 where
  pub os : Os
  pub log : List Event
  pub tl : CamTl
  pub sl : CamSl
  -- The table of the application layer, by resource id.
  pub applications : List (ℕ × App)
  pub mgr : CamAlApplication
  pub info : CamAlApplication
  pub cas : CamAlApplication
  -- `ready` of the conditional access application.
  pub ready : Bool
