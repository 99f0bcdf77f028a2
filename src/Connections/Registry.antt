-- ===== src/Connections/Registry.antt =====
-- internal/server/agenthub/tunnel.go: Tunnels; internal/server/agenthub/tcp.go: TCPHub. A connection
-- is the number under which it was made, a yamux session the number of its WebSocket.
pub mod Reconnected
use quickworks.Base.{
  ℕ, suc, ◌≡◌, ◌≢◌, ◌<◌, ◌∙◌, sym, ap, refl, String, Bool, true, false, not, ◌&&◌, ◌||◌, Option,
  none, some, List, [], ◌==◌, if◌then◌else◌, nat_eq, length, arith, eq_iff, eq_refl, Bool-cases,
  Option-cases, inl, inr,
}
use quickworks.Base.Maps.{find, put, remove, find-put, find-put_self, find-remove}
use quickworks.Connections.{Connection, new_connection, close, close_all}
use quickworks.Connections.Schedules.{System, hang_up, step, with_connection}
use quickworks.Connections.Opening.{IsSound}
use quickworks.Connections.Shutting.{hang_up-IsSound}

pub record Tunnels : Type 0 where
  pub connections : List (String × ℕ)
  pub links : ℕ → Connection
  pub opened : ℕ

unfoldable pub set_link : ℕ → Connection → Tunnels → Tunnels
set_link n c t = record t { links = λ k. if nat_eq k n then c else t.links k }

unfoldable pub close_link : ℕ → Tunnels → Option Tunnels
close_link n t = elim (close (t.links n)) [ none ↦ none | some c ↦ some (set_link n c t) ]

-- Tunnels.Connect: the new connection is number t.opened.
unfoldable pub connect : String → Tunnels → Option Tunnels
connect agent_id t =
    let replaced : Tunnels = record (set_link t.opened new_connection t) {
      connections = put agent_id t.opened t.connections;
      opened = suc t.opened;
    } in
    elim (find agent_id t.connections) [
      | none ↦ some replaced
      | some previous ↦ close_link previous replaced
    ]

unfoldable pub is_current : String → ℕ → List (String × ℕ) → Bool
is_current agent_id n m = elim (find agent_id m) [ none ↦ false | some k ↦ nat_eq k n ]

-- Tunnels.Disconnect
unfoldable pub disconnect : String → ℕ → Tunnels → Option Tunnels
disconnect agent_id n t = close_link n (record t {
  connections =
      if is_current agent_id n t.connections then remove agent_id t.connections else t.connections;
})

pub record TcpHub : Type 0 where
  pub sessions : List (String × ℕ)
  pub is_closed : ℕ → Bool

abbrev pub close_session : ℕ → TcpHub → TcpHub
close_session n h = record h { is_closed = λ k. nat_eq k n || h.is_closed k }

-- TCPHub.Connect
unfoldable pub tcp_connect : String → ℕ → TcpHub → TcpHub
tcp_connect agent_id session h =
    let replaced : TcpHub = record h { sessions = put agent_id session h.sessions } in
    elim (find agent_id h.sessions) [
      | none ↦ replaced
      | some previous ↦ close_session previous replaced
    ]

-- TCPHub.Disconnect
unfoldable pub tcp_disconnect : String → ℕ → TcpHub → TcpHub
tcp_disconnect agent_id session h = close_session session (record h {
  sessions =
      if is_current agent_id session h.sessions then remove agent_id h.sessions else h.sessions;
})

-- TCPHub.DialContext: the session on which a stream is opened, which a closed session refuses.
unfoldable pub dial_context : String → TcpHub → Option ℕ
dial_context agent_id h = elim (find agent_id h.sessions) [
  | none ↦ none
  | some session ↦ if h.is_closed session then none else some session
]
