-- ===== src/Connections.antt =====
-- internal/server/agenthub/tunnel.go: the channels of one agent connection, and who closes them.
-- What happens under the mutex is one step; so is one send or receive. A channel is the number under
-- which it was made. `none` is a panic: a close of a closed channel, or a send to one.
pub mod Closing
pub mod Schedules
pub mod Opening
pub mod Shutting
pub mod Soundness
pub mod Registry
pub mod Examples
use quickworks.Base.{
  ℕ, suc, String, Bool, true, false, not, Option, none, some, List, [], ◌∷◌, ◌++◌, ◌==◌,
  if◌then◌else◌, ltb, nat_eq, length,
}
use quickworks.Base.Maps.{find, put, remove}
use quickworks.Tunnel.{Frame, FrameType}

pub record Channel : Type 0 where
  pub capacity : ℕ
  pub queue : List Frame
  pub is_closed : Bool

-- `is_open` stands for `pending != nil`: Close sets both maps to nil, which read as empty.
pub record Connection : Type 0 where
  pub outbound : List Frame
  pub is_open : Bool
  pub pending : List (String × ℕ)
  pub streams : List (String × ℕ)
  pub channels : ℕ → Channel
  pub made : ℕ

abbrev pub response_queue_capacity : ℕ
response_queue_capacity = 256

abbrev pub outbound_capacity : ℕ
outbound_capacity = 32

abbrev pub empty_channel : ℕ → Channel
empty_channel capacity = record { capacity = capacity; queue = []; is_closed = false }

-- The connection that Tunnels.Connect makes.
unfoldable pub new_connection : Connection
new_connection = record {
  outbound = [];
  is_open = true;
  pending = [];
  streams = [];
  channels = λ r. empty_channel 0;
  made = 0;
}

unfoldable pub set_channel : ℕ → Channel → Connection → Connection
set_channel r channel c = record c { channels = λ k. if nat_eq k r then channel else c.channels k }

-- make(chan agent.Frame, capacity): the channel is number c.made.
unfoldable pub make : ℕ → Connection → Connection
make capacity c = record (set_channel c.made (empty_channel capacity) c) { made = suc c.made }

-- close(channel)
unfoldable pub close_channel : ℕ → Connection → Option Connection
close_channel r c =
    if (c.channels r).is_closed
    then none
    else some (set_channel r (record (c.channels r) { is_closed = true }) c)

-- A send in a select with another case: a full queue drops the frame.
unfoldable pub offer : ℕ → Frame → Connection → Option Connection
offer r frame c =
    if (c.channels r).is_closed
    then none
    else (if ltb (length (c.channels r).queue) (c.channels r).capacity
        then some
            (set_channel r (record (c.channels r) { queue = (c.channels r).queue ++ frame ∷ [] }) c)
        else some c)

-- The oldest frame of a channel, which a closed one still gives.
unfoldable pub receive : ℕ → Connection → Option Frame × Connection
receive r c = elim ((c.channels r).queue) [
  | [] ↦ (none, c)
  | frame ∷ queue ↦ (some frame, set_channel r (record (c.channels r) { queue = queue }) c)
]

-- Connection.Request, up to the send: the new channel, or an error.
unfoldable pub begin_request : String → Connection → Option ℕ × Connection
begin_request id c = if not c.is_open then (none, c) else (
  some c.made,
  record (make response_queue_capacity c) { pending = put id c.made c.pending },
)

-- Its deferred function, and the delete of OpenWebSocket.
unfoldable pub end_request : String → Connection → Connection
end_request id c = record c { pending = remove id c.pending }

-- Connection.OpenWebSocket, up to the send: its response and its stream.
unfoldable pub begin_open : String → Connection → Option (ℕ × ℕ) × Connection
begin_open id c = if not c.is_open then (none, c) else (
  some (c.made, suc c.made),
  record (make 32 (make 1 c)) {
    pending = put id c.made c.pending;
    streams = put id (suc c.made) c.streams;
  },
)

unfoldable pub holds : String → ℕ → List (String × ℕ) → Bool
holds id r m = elim (find id m) [ none ↦ false | some k ↦ nat_eq k r ]

-- The function `cleanup` of OpenWebSocket.
unfoldable pub cleanup : String → ℕ → Connection → Option Connection
cleanup id stream c =
    let forgotten : Connection = record c {
      pending = remove id c.pending;
      streams = remove id c.streams;
    } in
    if holds id stream c.streams then close_channel stream forgotten else some forgotten

pub data Sent : Type 0 where
  sent disconnected congested : Sent

-- Connection.Send
unfoldable pub send : Frame → Connection → Sent × Connection
send frame c =
    if not c.is_open
    then (disconnected, c)
    else (if ltb (length c.outbound) outbound_capacity
        then (sent, record c { outbound = c.outbound ++ frame ∷ [] })
        else (congested, c))

-- CloseWebSocket takes the stream out under the mutex, and closes it after.
unfoldable pub take_stream : String → Connection → Option ℕ × Connection
take_stream id c = (find id c.streams, record c { streams = remove id c.streams })

unfoldable pub close_all : List (String × ℕ) → Connection → Option Connection
close_all [] c = some c
close_all ((id, r) ∷ m) c = elim (close_channel r c) [ none ↦ none | some next ↦ close_all m next ]

-- Connection.Close
unfoldable pub close : Connection → Option Connection
close c = if not c.is_open then some c else elim (close_all c.pending c) [
  | none ↦ none
  | some responses ↦ elim (close_all c.streams responses) [
    | none ↦ none
    | some streams ↦ some (record streams { is_open = false; pending = []; streams = [] })
  ]
]

abbrev pub is_stream_frame : FrameType → Bool
is_stream_frame FrameType.web_socket_message = true
is_stream_frame FrameType.web_socket_close = true
is_stream_frame _ = false

-- Deliver, under the mutex: the channel that is to get the frame.
unfoldable pub target : Frame → Connection → Option ℕ
target frame c = find frame.id (if is_stream_frame frame.type then c.streams else c.pending)
