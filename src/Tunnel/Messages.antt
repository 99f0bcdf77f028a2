-- ===== src/Tunnel/Messages.antt =====
-- internal/agent/tunnel.go: writeWebSocketFrames, and the frame loop of maintainTunnelOnce.
use quickworks.Base.{
  ℕ, zero, suc, String, Bool, false, not, Option, none, some, List, [], ◌∷◌, ◌++◌, ◌==◌,
  if◌then◌else◌, ltb, length, take, drop, any, ℤ, pos, is_zero,
}
use quickworks.Tunnel.{FrameType, Frame, max_frame_payload, empty_frame}

unfoldable pub message_frame : String → String → List ℕ → Bool → Frame
message_frame id message_type body more = record empty_frame {
  type = FrameType.web_socket_message;
  id = id;
  message_type = message_type;
  body = body;
  more = more;
}

-- `for len(body) > 0`, on fuel: every round takes a byte at least, so the length is enough.
unfoldable pub split_frames : ℕ → String → String → List ℕ → List Frame
split_frames zero id message_type body = []
split_frames (suc n) id message_type [] = []
split_frames (suc n) id message_type (b ∷ bs) =
    let body = b ∷ bs in
    message_frame id message_type (take max_frame_payload body)
      (ltb max_frame_payload (length body))
    ∷ split_frames n id message_type (drop max_frame_payload body)

-- The frames that writeWebSocketFrames writes; a write that fails ends it there.
unfoldable pub write_web_socket_frames : String → String → List ℕ → List Frame
write_web_socket_frames id message_type [] = message_frame id message_type [] false ∷ []
write_web_socket_frames id message_type (b ∷ bs) =
    split_frames (length (b ∷ bs)) id message_type (b ∷ bs)

-- What the loop does to the outside, in order.
pub data Action : Type 0 where
  forward_http : Frame → Action
  forward_web_socket : Frame → Action
  write_upstream : String → Bool → List ℕ → Action
  close_upstream : String → ℤ → String → Action
  write_frame : Frame → Action

-- The open streams, and the bodies of the messages that are still incomplete.
pub record Streams : Type 0 where
  pub open_ids : List String
  pub bodies : List (String × List ℕ)

pub data LoopError : Type 0 where
  request_id_missing web_socket_id_missing unexpected_frame : LoopError

-- A missing key reads as the empty body.
unfoldable pub body_of : String → List (String × List ℕ) → List ℕ
body_of id [] = []
body_of id ((k, b) ∷ rest) = if k == id then b else body_of id rest

-- delete(webSocketBodies, id)
unfoldable pub forget : String → List (String × List ℕ) → List (String × List ℕ)
forget id [] = []
forget id ((k, b) ∷ rest) = let kept = forget id rest in if k == id then kept else (k, b) ∷ kept

unfoldable pub is_open : String → Streams → Bool
is_open id s = any (λ k. k == id) s.open_ids

-- delete(streams, id)
unfoldable pub without : String → List String → List String
without id [] = []
without id (k ∷ ks) = let kept = without id ks in if k == id then kept else k ∷ kept

-- The `add` that forwardWebSocket calls once it has dialled: none for an ID that is taken.
unfoldable pub add_stream : String → Streams → Option Streams
add_stream id s = if is_open id s then none else some (record s { open_ids = id ∷ s.open_ids })

-- removeStream
unfoldable pub remove_stream : String → Streams → Streams
remove_stream id s = record s { open_ids = without id s.open_ids }

write_failed : String → ℤ → Frame
write_failed id code = record empty_frame {
  type = FrameType.web_socket_close;
  id = id;
  close_code = code;
  close_reason = "workbench WebSocket write failed";
}

-- A whole message for the upstream; `failure` is the close status of a write that fails.
unfoldable pub write_message : Option ℤ → Frame → List ℕ → Streams → List Action × Streams
unfolding write_failed
write_message none f body s = (write_upstream f.id (f.message_type == "binary") body ∷ [], s)
write_message (some code) f body s = (
  write_upstream f.id (f.message_type == "binary") body
      ∷ write_frame (write_failed f.id code)
      ∷ close_upstream f.id (pos 1011) "workbench WebSocket write failed"
      ∷ [],
  remove_stream f.id s,
)

unfoldable pub on_message : Option ℤ → Frame → Streams → List Action × Streams
on_message failure f s =
    let body = body_of f.id s.bodies ++ f.body in
    if not (is_open f.id s)
    then ([], s)
    else (if f.more
        then ([], record s { bodies = (f.id, body) ∷ forget f.id s.bodies })
        else write_message failure f body (record s { bodies = forget f.id s.bodies }))

unfoldable pub on_close : Frame → Streams → List Action × Streams
on_close f s =
    if is_open f.id s
    then (
      close_upstream f.id (if is_zero f.close_code then pos 1000 else f.close_code) f.close_reason
          ∷ [],
      remove_stream f.id s,
    )
    else ([], s)

pub data Turn : Type 0 where
  failed : LoopError → Turn
  went_on : List Action → Streams → Turn

abbrev with_id : Frame → LoopError → Turn → Turn
with_id f e t = if f.id == "" then failed e else t

-- One turn of the loop over the frames that are read.
unfoldable pub on_frame : Option ℤ → Frame → Streams → Turn
on_frame failure f s = elim f.type [
  | FrameType.heartbeat_ack ↦ went_on [] s
  | FrameType.request ↦ with_id f request_id_missing (went_on (forward_http f ∷ []) s)
  | FrameType.web_socket_open ↦
      with_id f web_socket_id_missing (went_on (forward_web_socket f ∷ []) s)
  | FrameType.web_socket_message ↦ let r = on_message failure f s in went_on r.0 r.1
  | FrameType.web_socket_close ↦ let r = on_close f s in went_on r.0 r.1
  | _ ↦ failed unexpected_frame
]

-- The loop over frames that arrive, until one of them fails it: what it did, and where it stands.
unfoldable pub on_frames :
    Option ℤ → List Frame → Streams → Option LoopError × List Action × Streams
on_frames failure [] s = (none, [], s)
on_frames failure (f ∷ fs) s = elim (on_frame failure f s) [
  | failed e ↦ (some e, [], s)
  | went_on actions s' ↦
      let (stopped, later, last) = on_frames failure fs s' in (stopped, actions ++ later, last)
]
