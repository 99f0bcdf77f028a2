-- ===== src/Connections/Registry/Reconnected.antt =====
-- internal/server/agenthub/tunnel.go, tcp.go: an agent that connects again before its old connection ends.
use quickworks.Base.{
  ℕ, suc, ◌≡◌, ◌≢◌, ◌<◌, ◌∙◌, sym, ap, refl, String, true, false, none, some, List, [], ◌==◌,
  if◌then◌else◌, arith, eq_refl, Option-cases, inl, inr,
}
use quickworks.Base.Maps.{find, put, remove, find-put, find-put_self, find-remove}
use quickworks.Connections.{Connection, new_connection, close}
use quickworks.Connections.Schedules.{System, hang_up, step}
use quickworks.Connections.Opening.{IsSound}
use quickworks.Connections.Shutting.{hang_up-IsSound}
use quickworks.Connections.Registry.{
  Tunnels, set_link, close_link, connect, is_current, disconnect, TcpHub, close_session,
  tcp_connect, tcp_disconnect, dial_context,
}

-- Every connection keeps the invariant of its channels, and nothing of it is on its way.
abbrev pub AreSound : Tunnels → Type 0
AreSound t = (n : ℕ) → IsSound (record { connection = t.links n; closing = []; delivering = none })

close-closed : (c : Connection) {c' : Connection} → close c ≡ some c' → c'.is_open ≡ false
unfolding close
close-closed c ran = ground arith

close-total :
    (c : Connection)
    → IsSound (record { connection = c; closing = []; delivering = none })
    → (c' : Connection) × (close c ≡ some c')
close-total c sound = elim (Option-cases (close c)) [
  | inl panics ↦ absurd (impossible panics)
  | inr closed ↦ closed
]
  where
    here : System
    here = record { connection = c; closing = []; delivering = none }

    impossible : close c ≡ none → ⊥
    impossible panics =
        let (s', ran, still) = hang_up-IsSound here sound in
        let stopped : step hang_up here ≡ none = unfold step in rw panics refl in cc

close-again : (c : Connection) → c.is_open ≡ false → close c ≡ some c
unfolding close
close-again c shut = ground arith

close_link-lem :
    (n : ℕ) (t : Tunnels) {c : Connection}
    → close (t.links n) ≡ some c
    → close_link n t ≡ some (set_link n c t)
unfolding close_link
close_link-lem n t ran = rw (ran, close_link) refl

links-same : (n : ℕ) (c : Connection) (t : Tunnels) → (set_link n c t).links n ≡ c
unfolding set_link
links-same n c t = ground arith

links-other :
    (n k : ℕ) (c : Connection) (t : Tunnels) → k ≢ n → (set_link n c t).links k ≡ t.links k
unfolding set_link
links-other n k c t apart = ground arith

replaced_by : String → Tunnels → Tunnels
replaced_by agent_id t = record (set_link t.opened new_connection t) {
  connections = put agent_id t.opened t.connections;
  opened = suc t.opened;
}

connect-lem :
    (agent_id : String) (old : ℕ) (t : Tunnels) {c : Connection}
    → find agent_id t.connections ≡ some old
    → old ≢ t.opened
    → close (t.links old) ≡ some c
    → connect agent_id t ≡ some (set_link old c (replaced_by agent_id t))
unfolding connect replaced_by
connect-lem agent_id old t found apart ran =
    rw (found, connect)
      (close_link-lem old (replaced_by agent_id t)
        (rw (links-other t.opened old new_connection t apart) ran))

not_current :
    (agent_id : String) (old n : ℕ) (m : List (String × ℕ))
    → find agent_id m ≡ some n
    → n ≢ old
    → is_current agent_id old m ≡ false
unfolding is_current
not_current agent_id old n m found apart = rw (found, is_current) (ground arith)

current :
    (agent_id : String) (n : ℕ) (m : List (String × ℕ))
    → find agent_id m ≡ some n
    → is_current agent_id n m ≡ true
unfolding is_current
current agent_id n m found = rw (found, is_current) (ground arith)

disconnect-stale :
    (agent_id : String) (old n : ℕ) (t : Tunnels)
    → find agent_id t.connections ≡ some n
    → n ≢ old
    → (t.links old).is_open ≡ false
    → disconnect agent_id old t ≡ some (set_link old (t.links old) t)
unfolding disconnect
disconnect-stale agent_id old n t found apart shut =
    rw (not_current agent_id old n t.connections found apart, disconnect)
      (close_link-lem old t (close-again (t.links old) shut))

-- If every connection is sound and an agent that has a connection connects again, and the old
-- connection then disconnects, both calls go through, the new connection stays the agent's and is
-- as it was made, and the old one is closed.
pub connect-disconnect :
    (agent_id : String) (old : ℕ) (t : Tunnels)
    → AreSound t
    → old < t.opened
    → find agent_id t.connections ≡ some old
    → (t' t'' : Tunnels) × (connect agent_id t ≡ some t')
      × (disconnect agent_id old t' ≡ some t'')
      × (find agent_id t''.connections ≡ some t.opened)
      × (t''.links t.opened ≡ new_connection)
      × ((t''.links old).is_open ≡ false)
unfolding set_link close-total replaced_by
connect-disconnect agent_id old t sound before found =
    let (c, ran) = close-total (t.links old) (sound old) in
    let t' : Tunnels = set_link old c (replaced_by agent_id t) in
    (
      t',
      set_link old (t'.links old) t',
      connect-lem agent_id old t found (omega arith) ran,
      disconnect-stale agent_id old t.opened t' (registered c) (omega arith) (shut c ran),
      registered c,
      links-other old t.opened (t'.links old) t' (omega arith)
          ∙ links-other old t.opened c (replaced_by agent_id t) (omega arith)
          ∙ unfold replaced_by in links-same t.opened new_connection t,
      rw (links-same old (t'.links old) t') (shut c ran),
    )
  where
    registered :
        (c : Connection)
        → find agent_id (set_link old c (replaced_by agent_id t)).connections ≡ some t.opened
    registered c = unfold set_link replaced_by in find-put_self agent_id t.opened t.connections

    shut :
        (c : Connection)
        → close (t.links old) ≡ some c
        → ((set_link old c (replaced_by agent_id t)).links old).is_open ≡ false
    shut c ran = rw (links-same old c (replaced_by agent_id t)) (close-closed (t.links old) ran)

connected : String → ℕ → ℕ → TcpHub → TcpHub
connected agent_id old session h =
    close_session old (record h { sessions = put agent_id session h.sessions })

tcp_connect-lem :
    (agent_id : String) (old session : ℕ) (h : TcpHub)
    → find agent_id h.sessions ≡ some old
    → tcp_connect agent_id session h ≡ connected agent_id old session h
unfolding tcp_connect connected
tcp_connect-lem agent_id old session h found = rw (found, tcp_connect) refl

tcp_disconnect-stale :
    (agent_id : String) (old session : ℕ) (h : TcpHub)
    → session ≢ old
    → tcp_disconnect agent_id old (connected agent_id old session h)
      ≡ close_session old (connected agent_id old session h)
unfolding tcp_disconnect connected
tcp_disconnect-stale agent_id old session h apart =
    rw
      (not_current agent_id old session (put agent_id session h.sessions)
        (find-put_self agent_id session h.sessions) apart)
      refl

tcp_disconnect-current :
    (agent_id : String) (old session : ℕ) (h : TcpHub)
    → tcp_disconnect agent_id session (connected agent_id old session h)
      ≡ close_session session (record (connected agent_id old session h) {
        sessions = remove agent_id (put agent_id session h.sessions);
      })
unfolding tcp_disconnect connected
tcp_disconnect-current agent_id old session h =
    rw
      (current agent_id session (put agent_id session h.sessions)
        (find-put_self agent_id session h.sessions))
      refl

dial-none :
    (agent_id : String) (h : TcpHub)
    → find agent_id h.sessions ≡ none
    → dial_context agent_id h ≡ none
unfolding dial_context
dial-none agent_id h gone = rw (gone, dial_context) refl

dial-some :
    (agent_id : String) (n : ℕ) (h : TcpHub)
    → find agent_id h.sessions ≡ some n
    → dial_context agent_id h ≡ (if h.is_closed n then none else some n)
unfolding dial_context
dial-some agent_id n h found = rw (found, dial_context) refl

dial-closed :
    (other : String) (old : ℕ) (h h' : TcpHub)
    → find other h'.sessions ≡ find other h.sessions
    → ((n : ℕ) → n ≢ old → h'.is_closed n ≡ h.is_closed n)
    → find other h.sessions ≢ some old
    → dial_context other h' ≡ dial_context other h
dial-closed other old h h' same open_same apart = elim (Option-cases (find other h.sessions)) [
  | inl gone ↦ dial-none other h' (same ∙ gone) ∙ sym (dial-none other h gone)
  | inr (n, found) ↦
      dial-some other n h' (same ∙ found)
      ∙ rw (open_same n (different n found)) (sym (dial-some other n h found))
]
  where
    different : (n : ℕ) → find other h.sessions ≡ some n → n ≢ old
    different n found = λ e. apart (found ∙ ap some e)

-- If an agent that has a session connects a new one that is open, and the old one then disconnects,
-- streams are opened on the new session, the old one is closed and an agent with a session of its
-- own is served as before; if the new one disconnects instead, the agent has no session.
pub tcp_connect-disconnect :
    (agent_id other : String) (old session : ℕ) (h : TcpHub)
    → find agent_id h.sessions ≡ some old
    → session ≢ old
    → h.is_closed session ≡ false
    → (agent_id == other) ≡ false
    → find other h.sessions ≢ some old
    → (dial_context agent_id (tcp_disconnect agent_id old (tcp_connect agent_id session h))
        ≡ some session)
      × ((tcp_disconnect agent_id old (tcp_connect agent_id session h)).is_closed old ≡ true)
      × (dial_context other (tcp_disconnect agent_id old (tcp_connect agent_id session h))
          ≡ dial_context other h)
      × (dial_context agent_id (tcp_disconnect agent_id session (tcp_connect agent_id session h))
          ≡ none)
unfolding connected
tcp_connect-disconnect agent_id other old session h found apart live ne theirs =
    rw (tcp_connect-lem agent_id old session h found) (
      rw (tcp_disconnect-stale agent_id old session h apart) (
        rw (tcp_disconnect-current agent_id old session h) (
          dial-some agent_id session kept (find-put_self agent_id session h.sessions)
              ∙ rw (still_open session apart ∙ live) refl,
          ground arith,
          dial-closed other old h kept elsewhere still_open theirs,
          dial-none agent_id _ (
              find-remove agent_id agent_id (put agent_id session h.sessions)
              ∙ rw (eq_refl agent_id) refl),
        )))
  where
    kept : TcpHub
    kept = close_session old (connected agent_id old session h)

    still_open : (n : ℕ) → n ≢ old → kept.is_closed n ≡ h.is_closed n
    still_open n n_ne = ground arith

    elsewhere : find other kept.sessions ≡ find other h.sessions
    elsewhere = find-put agent_id other session h.sessions ∙ rw ne refl
