-- ===== src/Connections/Schedules.antt =====
-- internal/server/agenthub/tunnel.go: the goroutines of one connection, in any order of their steps. The sends of
-- Request and OpenWebSocket to Outbound are no steps: that channel is never closed.
use quickworks.Base.{ℕ, String, Option, none, some, List, [], ◌∷◌, if◌then◌else◌, nat_eq, any}
use quickworks.Table.{delete}
use quickworks.Tunnel.{Frame}
use quickworks.Connections.{
  Connection, new_connection, close_channel, offer, receive, begin_request, end_request, begin_open,
  cleanup, send, take_stream, close, target,
}

-- `closing` holds the streams that a CloseWebSocket took out and has yet to close; `delivering` what a
-- Deliver looked up and has yet to send.
pub record System : Type 0 where
  pub connection : Connection
  pub closing : List ℕ
  pub delivering : Option (ℕ × Frame)

-- One step of a goroutine. Deliver is two steps, or one where nothing comes between.
pub data Move : Type 0 where
  request forget open_socket take : String → Move
  clean_up : String → ℕ → Move
  receive_from close_taken : ℕ → Move
  send_frame look_up deliver : Frame → Move
  deliver_late hang_up : Move

abbrev pub with_connection : System → Option Connection → Option System
with_connection s none = none
with_connection s (some c) = some (record s { connection = c })

abbrev pub sent_to : Option ℕ → Frame → Connection → Option Connection
sent_to none frame c = some c
sent_to (some r) frame c = offer r frame c

abbrev pub taken : Option ℕ → List ℕ → List ℕ
taken none closing = closing
taken (some r) closing = r ∷ closing

abbrev pub late_send : Option (ℕ × Frame) → Connection → Option Connection
late_send none c = some c
late_send (some (r, frame)) c = offer r frame c

unfoldable pub step : Move → System → Option System
step (request id) s = some (record s { connection = (begin_request id s.connection).1 })
step (forget id) s = some (record s { connection = end_request id s.connection })
step (open_socket id) s = some (record s { connection = (begin_open id s.connection).1 })
step (clean_up id stream) s = with_connection s (cleanup id stream s.connection)
step (receive_from r) s = some (record s { connection = (receive r s.connection).1 })
step (send_frame frame) s = some (record s { connection = (send frame s.connection).1 })
step (take id) s = some (record s {
  connection = (take_stream id s.connection).1;
  closing = taken (take_stream id s.connection).0 s.closing;
})
step (close_taken r) s =
    if any (λ k. nat_eq k r) s.closing
    then with_connection (record s { closing = delete (λ k. nat_eq k r) s.closing })
        (close_channel r s.connection)
    else some s
step (look_up frame) s = some (record s {
  delivering = elim (target frame s.connection) [ none ↦ none | some r ↦ some (r, frame) ];
})
step (deliver frame) s = with_connection s (sent_to (target frame s.connection) frame s.connection)
step deliver_late s =
    with_connection (record s { delivering = none }) (late_send s.delivering s.connection)
step hang_up s = with_connection s (close s.connection)

unfoldable pub run : List Move → System → Option System
run [] s = some s
run (a ∷ actions) s = elim (step a s) [ none ↦ none | some next ↦ run actions next ]

unfoldable pub start : System
start = record { connection = new_connection; closing = []; delivering = none }
