-- ===== src/Connections/Examples.antt =====
-- internal/server/agenthub/tunnel.go, tcp.go: concrete connections.
use quickworks.Base.{◌≡◌, refl, false, none, some, List, [], ◌∷◌}
use quickworks.Base.Maps.{find, put}
use quickworks.Tunnel.{Frame, FrameType, empty_frame}
use quickworks.Connections.{new_connection, begin_open, set_channel, make}
use quickworks.Connections.Schedules.{
  System, Move, request, open_socket, take, clean_up, receive_from, close_taken, look_up, deliver,
  deliver_late, hang_up, step, run, start,
}
use quickworks.Connections.Opening.{GoesOn, begin_open-IsSound}
use quickworks.Connections.Soundness.{run_without_panic, start-IsSound, late_delivery-panics}
use quickworks.Connections.Registry.{TcpHub}

abbrev message : Frame
message = record empty_frame {
  type = FrameType.web_socket_message;
  id = "s1";
  body = 104 ∷ 105 ∷ [];
}

-- A socket that is closed by CloseWebSocket, by its own cleanup and by the end of the connection.
abbrev schedule : List Move
schedule =
    open_socket "s1"
    ∷ request "r1"
    ∷ deliver message
    ∷ receive_from 1
    ∷ take "s1"
    ∷ hang_up
    ∷ close_taken 1
    ∷ clean_up "s1" 1
    ∷ []

run_without_panic_example : GoesOn (run schedule start)
run_without_panic_example =
    run_without_panic schedule (refl, (refl, (refl, (refl, (refl, (refl, (refl, (refl, tt))))))))

abbrev socket_open : System
socket_open = record start { connection = (begin_open "s1" start.connection).1 }

late_delivery-panics_example :
    (s' : System) × (run (look_up message ∷ take "s1" ∷ close_taken 1 ∷ []) socket_open ≡ some s')
    × (step deliver_late s' ≡ none)
unfolding begin_open start new_connection put find make set_channel
late_delivery-panics_example =
    late_delivery-panics socket_open 1 message (begin_open-IsSound "s1" start start-IsSound) refl
      refl

abbrev hub : TcpHub
hub = record { sessions = ("a", 0) ∷ ("b", 1) ∷ []; is_closed = λ n. false }
