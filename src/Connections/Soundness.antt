-- ===== src/Connections/Soundness.antt =====
-- internal/server/agenthub/tunnel.go: no order of the steps closes a channel twice.
use quickworks.Base.{
  ℕ, ◌≡◌, ◌∙◌, refl, String, Bool, true, false, none, some, List, [], ◌∷◌, nat_eq, arith, All,
}
use quickworks.Base.Maps.{find, remove}
use quickworks.Table.{count, delete}
use quickworks.Tunnel.{Frame}
use quickworks.Connections.{
  new_connection, set_channel, close_channel, offer, take_stream, target, is_stream_frame,
}
use quickworks.Connections.Closing.{closed, close_channel-live}
use quickworks.Connections.Schedules.{
  System, Move, request, forget, open_socket, take, clean_up, receive_from, close_taken, send_frame,
  look_up, deliver, deliver_late, hang_up, step, run, start,
}
use quickworks.Connections.Opening.{
  IsSound, GoesOn, begin_request-IsSound, end_request-IsSound, begin_open-IsSound, send-IsSound,
  receive-IsSound, found-used, deliver-IsSound,
}
use quickworks.Connections.Shutting.{
  cleanup-IsSound, take_stream-IsSound, close_taken-IsSound, hang_up-IsSound,
}

abbrev pub is_late : Move → Bool
is_late deliver_late = true
is_late _ = false

step-IsSound : (a : Move) (s : System) → is_late a ≡ false → IsSound s → GoesOn (step a s)
unfolding step
step-IsSound (request id) s prompt sound = (_, refl, begin_request-IsSound id s sound)
step-IsSound (forget id) s prompt sound = (_, refl, end_request-IsSound id s sound)
step-IsSound (open_socket id) s prompt sound = (_, refl, begin_open-IsSound id s sound)
step-IsSound (take id) s prompt sound = take_stream-IsSound id s sound
step-IsSound (clean_up id stream) s prompt sound = cleanup-IsSound id stream s sound
step-IsSound (receive_from r) s prompt sound = (_, refl, receive-IsSound r s sound)
step-IsSound (close_taken r) s prompt sound = close_taken-IsSound r s sound
step-IsSound (send_frame frame) s prompt sound = (_, refl, send-IsSound frame s sound)
step-IsSound (look_up frame) s prompt sound = (
  _,
  refl,
  record {
    single = sound.single;
    bounded = sound.bounded;
    outbound_bounded = sound.outbound_bounded;
  },
)
step-IsSound (deliver frame) s prompt sound = deliver-IsSound frame s sound
step-IsSound deliver_late s prompt sound = cc
step-IsSound hang_up s prompt sound = hang_up-IsSound s sound

run-cons :
    (a : Move) (actions : List Move) (s : System) {next : System}
    → step a s ≡ some next
    → run (a ∷ actions) s ≡ run actions next
unfolding run
run-cons a actions s ran = rw (ran, run) refl

pub run-IsSound :
    (actions : List Move) (s : System)
    → All (λ a. is_late a ≡ false) actions
    → IsSound s
    → GoesOn (run actions s)
unfolding run
run-IsSound [] s prompt sound = (s, refl, sound)
run-IsSound (a ∷ actions) s (prompt, prompts) sound =
    let (next, stepped, next_sound) = step-IsSound a s prompt sound in
    let (last, ran, last_sound) = run-IsSound actions next prompts next_sound in
    (last, run-cons a actions s stepped ∙ ran, last_sound)

pub start-IsSound : IsSound start
unfolding start new_connection count
start-IsSound = record {
  single = λ r. ground arith;
  bounded = λ r. omega arith;
  outbound_bounded = omega arith;
}

-- From a new connection, in any order of the steps of requests, WebSockets, receivers, closings and
-- the end of the connection in which no delivery is interrupted, no step closes a channel twice or
-- sends to a closed one; and after them every channel that is still referred to is open and
-- referred to once, and no queue is longer than its capacity.
pub run_without_panic :
    (actions : List Move) → All (λ a. is_late a ≡ false) actions → GoesOn (run actions start)
run_without_panic actions prompt = run-IsSound actions start prompt start-IsSound

abbrev emptied : String → ℕ → Frame → System → System
emptied id r frame s = record {
  connection = closed r (record s.connection { streams = remove id s.connection.streams });
  closing = delete (λ k. nat_eq k r) (r ∷ s.closing);
  delivering = some (r, frame);
}

-- Where the references of a connection are sound, a frame for an open WebSocket is looked up, the
-- WebSocket is then closed, and the delivery goes on, the steps up to the delivery succeed and its
-- send panics.
pub late_delivery-panics :
    (s : System) (r : ℕ) (frame : Frame)
    → IsSound s
    → is_stream_frame frame.type ≡ true
    → find frame.id s.connection.streams ≡ some r
    → (s' : System) × (run (look_up frame ∷ take frame.id ∷ close_taken r ∷ []) s ≡ some s')
      × (step deliver_late s' ≡ none)
unfolding step target take_stream
late_delivery-panics s r frame sound stream found = (
  emptied frame.id r frame s,
  run-cons (look_up frame) _ s looked_up
      ∙ run-cons (take frame.id) _ (record s { delivering = some (r, frame) }) took
      ∙ run-cons (close_taken r) _
          (record without { closing = r ∷ s.closing; delivering = some (r, frame) }) closes
      ∙ unfold run in refl,
  unfold offer set_channel in ground (arith, same_number r),
)
  where
    same_number : (k : ℕ) → nat_eq k k ≡ true
    same_number k = ground arith

    without : System
    without = record s {
      connection = record s.connection { streams = remove frame.id s.connection.streams };
    }

    looked_up : step (look_up frame) s ≡ some (record s { delivering = some (r, frame) })
    looked_up = rw (stream, step, target) (rw (found, step) refl)

    took :
        step (take frame.id) (record s { delivering = some (r, frame) })
        ≡ some (record without { closing = r ∷ s.closing; delivering = some (r, frame) })
    took = rw (found, step) refl

    shut : close_channel r without.connection ≡ some (closed r without.connection)
    shut =
        close_channel-live r without.connection
          (omega (arith, sound.single r, found-used r frame.id s.connection.streams found))

    closes :
        step
          (close_taken r)
          (record without { closing = r ∷ s.closing; delivering = some (r, frame) })
        ≡ some (emptied frame.id r frame s)
    closes = rw (same_number r, step) (rw (shut, step) refl)
