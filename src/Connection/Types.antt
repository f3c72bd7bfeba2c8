-- ===== src/Connection/Types.antt =====
-- The enumerations and records of connection/ConnectionManager.h, connection/UserConnection.h and
-- queue/QueueDownloadInfo.h that connections are made of.
use airdcpp_core.Base.{ℕ, zero, suc, ◌+◌, ◌%◌, ◌^◌, max, Bool, true, false, Option}
use airdcpp_core.Base.Int.{ℤ, pos, negsuc}

pub data ConnectionType : Type 0 where
  download upload pm : ConnectionType

abbrev pub same_type : ConnectionType → ConnectionType → Bool
same_type download download = true
same_type upload upload = true
same_type pm pm = true
same_type _ _ = false

-- QueueDownloadType
pub data QueueDownloadType : Type 0 where
  any_file small mcn_normal : QueueDownloadType

abbrev pub is_mcn_normal : QueueDownloadType → Bool
is_mcn_normal mcn_normal = true
is_mcn_normal _ = false

abbrev pub is_small : QueueDownloadType → Bool
is_small small = true
is_small _ = false

abbrev pub is_any_file : QueueDownloadType → Bool
is_any_file any_file = true
is_any_file _ = false

-- ConnectionQueueItem::State
pub data State : Type 0 where
  connecting waiting active : State

-- ConnectionQueueItem. `mcn` and `running` are its flags; a negative number of errors stands after
-- a protocol error.
pub record Item : Type 0 where
  pub token : ℕ
  pub download_type : QueueDownloadType
  pub last_bundle : ℕ
  pub last_attempt : ℕ
  pub errors : ℤ
  pub state : State
  pub max_remote_conns : ℕ
  pub conn_type : ConnectionType
  pub user : ℕ
  pub hub_url : ℕ
  pub mcn : Bool
  pub running : Bool

-- The states of a UserConnection.
pub data UcState : Type 0 where
  unconnected connect supnick inf lock direction key get send snd idle transferring cmd : UcState

-- UserConnection: its identity, state, flags and the features that the other side told.
pub record UserConnection : Type 0 where
  pub id : ℕ
  pub uc_state : UcState
  pub nmdc : Bool
  pub uploading : Bool
  pub downloading : Bool
  pub private_chat : Bool
  pub incoming : Bool
  pub associated : Bool
  pub small_slot : Bool
  pub trusted : Bool
  pub supports_mcn : Bool
  pub supports_minislots : Bool
  pub supports_xml_bzlist : Bool
  pub supports_adcget : Bool
  pub supports_zlib_get : Bool
  pub supports_tthl : Bool
  pub supports_tthf : Bool
  pub uc_user : Option ℕ
  pub connect_token : ℕ
  pub uc_hub_url : ℕ
  pub last_activity : ℕ

abbrev pub uint64 : ℕ → ℕ
uint64 n = n % 2 ^ 64

-- `errors + 1`, and `max(1, errors)`.
abbrev pub next_error : ℤ → ℤ
next_error (pos n) = pos (n + 1)
next_error (negsuc zero) = pos 0
next_error (negsuc (suc n)) = negsuc n

abbrev pub at_least_one : ℤ → ℕ
at_least_one (pos n) = max 1 n
at_least_one (negsuc n) = 1

abbrev pub is_protocol_error : ℤ → Bool
is_protocol_error (negsuc zero) = true
is_protocol_error _ = false
