-- ===== src/Tunnel.antt =====
-- internal/protocol/agent/frame.go and internal/agent/tunnel.go: the frames between server and agent.
-- A body is the list of its bytes.
pub mod Messages
pub mod Responses
pub mod Delivery
pub mod Reassembly
pub mod Examples
use quickworks.Base.{ℕ, ◌*◌, String, Bool, false, List, [], ℤ, pos}

pub data FrameType : Type 0 where
  no_type heartbeat heartbeat_ack request response : FrameType
  web_socket_open web_socket_opened web_socket_message web_socket_close : FrameType
  unknown_type : String → FrameType

pub record Frame : Type 0 where
  pub type : FrameType
  pub id : String
  pub method : String
  pub path : String
  pub headers : List (String × List String)
  pub body : List ℕ
  pub more : Bool
  pub status : ℕ
  pub error : String
  pub message_type : String
  pub close_code : ℤ
  pub close_reason : String

abbrev pub max_frame_payload : ℕ
max_frame_payload = 64 * 1024

-- The zero value of the struct.
abbrev pub empty_frame : Frame
empty_frame = record {
  type = FrameType.no_type;
  id = "";
  method = "";
  path = "";
  headers = [];
  body = [];
  more = false;
  status = 0;
  error = "";
  message_type = "";
  close_code = pos 0;
  close_reason = "";
}
