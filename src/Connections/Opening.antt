-- ===== src/Connections/Opening.antt =====
-- internal/server/agenthub/tunnel.go: what opens channels, sends and receives keeps their references sound.
use quickworks.Base.{
  ℕ, suc, ◌+◌, ◌≤◌, ◌<◌, ◌≡◌, refl, String, Bool, false, Option, some, List, [], ◌∷◌, ◌++◌, ltb,
  nat_eq, length, length-append, arith, Bool-cases, Option-cases, inl, inr,
}
use quickworks.Base.Maps.{find}
use quickworks.Table.{count}
use quickworks.Tunnel.{Frame}
use quickworks.Connections.{
  Connection, set_channel, make, offer, receive, begin_request, end_request, begin_open, send,
  target, is_stream_frame,
}
use quickworks.Connections.Closing.{
  points_to, held, live, count-put, count-remove, count-remove_found, AreBounded,
}
use quickworks.Connections.Schedules.{System, deliver, step, with_connection}

abbrev pub is_number : ℕ → ℕ → Bool
is_number r k = nat_eq k r

-- How often a system refers to a channel that it may yet close.
abbrev pub references : System → ℕ → ℕ
references s r = held s.connection r + count (is_number r) s.closing

-- A channel is referred to once at most, and not at all once it is closed; no queue is too long.
pub record IsSound (s : System) : Type 0 where
  pub single : (r : ℕ) → references s r ≤ live s.connection r
  pub bounded : AreBounded s.connection.channels
  pub outbound_bounded : length s.connection.outbound ≤ 32

abbrev pub GoesOn : Option System → Type 0
GoesOn o = (s : System) × (o ≡ some s) × IsSound s

pub begin_request-IsSound :
    (id : String) (s : System)
    → IsSound s
    → IsSound (record s { connection = (begin_request id s.connection).1 })
unfolding begin_request make set_channel
begin_request-IsSound id s sound = record {
  single =
      λ r. ground (arith, sound.single r, count-put r id s.connection.made s.connection.pending);
  bounded = λ r. ground (arith, sound.bounded r);
  outbound_bounded = ground (arith, sound.outbound_bounded);
}

pub end_request-IsSound :
    (id : String) (s : System)
    → IsSound s
    → IsSound (record s { connection = end_request id s.connection })
unfolding end_request
end_request-IsSound id s sound = record {
  single = λ r. omega (arith, sound.single r, count-remove r id s.connection.pending);
  bounded = sound.bounded;
  outbound_bounded = sound.outbound_bounded;
}

pub begin_open-IsSound :
    (id : String) (s : System)
    → IsSound s
    → IsSound (record s { connection = (begin_open id s.connection).1 })
unfolding begin_open make set_channel
begin_open-IsSound id s sound = record {
  single = λ r. ground (
    arith,
    sound.single r,
    count-put r id s.connection.made s.connection.pending,
    count-put r id (suc s.connection.made) s.connection.streams,
  );
  bounded = λ r. ground (arith, sound.bounded r);
  outbound_bounded = ground (arith, sound.outbound_bounded);
}

pub send-IsSound :
    (frame : Frame) (s : System)
    → IsSound s
    → IsSound (record s { connection = (send frame s.connection).1 })
unfolding send
send-IsSound frame s sound = record {
  single = λ r. ground (arith, sound.single r);
  bounded = λ r. ground (arith, sound.bounded r);
  outbound_bounded =
      ground (arith, sound.outbound_bounded, length-append s.connection.outbound (frame ∷ []));
}

pub receive-IsSound :
    (r : ℕ) (s : System)
    → IsSound s
    → IsSound (record s { connection = (receive r s.connection).1 })
unfolding receive set_channel
receive-IsSound r s sound = record {
  single = λ k. ground (arith, sound.single k);
  bounded = λ k. ground (arith, sound.bounded k);
  outbound_bounded = ground (arith, sound.outbound_bounded);
}

-- A channel that something refers to takes a frame without a panic.
pub offer-IsSound :
    (r : ℕ) (frame : Frame) (s : System)
    → IsSound s
    → 0 < references s r
    → GoesOn (with_connection s (offer r frame s.connection))
unfolding offer
offer-IsSound r frame s sound used =
    elim (Bool-cases
      (ltb (length (s.connection.channels r).queue) (s.connection.channels r).capacity)) [
        | inl room ↦ (
          record s { connection = filled },
          rw open_one (rw room refl),
          unfold set_channel in
              record {
                single = λ k. ground (arith, sound.single k);
                bounded = λ k. ground (
                  arith,
                  sound.bounded k,
                  length-append (s.connection.channels r).queue (frame ∷ []),
                );
                outbound_bounded = sound.outbound_bounded;
              },
        )
        | inr full ↦ (s, rw open_one (rw full refl), sound)
      ]
  where
    open_one : (s.connection.channels r).is_closed ≡ false
    open_one = ground (arith, sound.single r)

    filled : Connection
    filled =
        set_channel r
          (record (s.connection.channels r) {
            queue = (s.connection.channels r).queue ++ frame ∷ [];
          })
          s.connection

pub found-used :
    (r : ℕ) (id : String) (m : List (String × ℕ)) → find id m ≡ some r → 0 < count (points_to r) m
found-used r id m found = omega (arith, count-remove_found r id m found)

pub target-used : (r : ℕ) (frame : Frame) (c : Connection) → target frame c ≡ some r → 0 < held c r
unfolding target
target-used r frame c found = elim (Bool-cases (is_stream_frame frame.type)) [
  | inl stream ↦ ground (arith, found-used r frame.id c.streams)
  | inr response ↦ ground (arith, found-used r frame.id c.pending)
]

pub deliver-IsSound : (frame : Frame) (s : System) → IsSound s → GoesOn (step (deliver frame) s)
unfolding step
deliver-IsSound frame s sound = elim (Option-cases (target frame s.connection)) [
  | inl nobody ↦ rw nobody (s, refl, sound)
  | inr (r, found) ↦
      rw found
        (offer-IsSound r frame s sound (omega (arith, target-used r frame s.connection found)))
]
