-- ===== src/Connections/Closing.antt =====
-- internal/server/agenthub/tunnel.go: a channel that something still refers to is open.
use quickworks.Base.{
  ℕ, ◌+◌, ◌≤◌, ◌<◌, ◌≡◌, ◌∙◌, sym, refl, String, Bool, true, not, ◌&&◌, none, some, List, [], ◌∷◌,
  if◌then◌else◌, ltb, nat_eq, length, arith, Bool-cases, Option-cases, inl, inr,
}
use quickworks.Base.Maps.{find, put, remove}
use quickworks.Table.{count}
use quickworks.Connections.{Channel, Connection, set_channel, close_channel, close_all}

abbrev pub points_to : ℕ → String × ℕ → Bool
points_to r e = nat_eq e.1 r

-- How often the maps of a connection refer to a channel.
abbrev pub held : Connection → ℕ → ℕ
held c r = count (points_to r) c.pending + count (points_to r) c.streams

-- 1 for a channel that was made and not closed.
abbrev pub live : Connection → ℕ → ℕ
live c r = if ltb r c.made && not (c.channels r).is_closed then 1 else 0

abbrev pub closed : ℕ → Connection → Connection
closed r c = set_channel r (record (c.channels r) { is_closed = true }) c

pub count-put :
    (r : ℕ) (k : String) (v : ℕ) (m : List (String × ℕ))
    → count (points_to r) (put k v m) ≤ count (points_to r) m + (if nat_eq v r then 1 else 0)
unfolding count put
count-put r k v [] = ground arith
count-put r k v ((j, w) ∷ m) = ground (arith, count-put r k v m)

pub count-remove :
    (r : ℕ) (k : String) (m : List (String × ℕ))
    → count (points_to r) (remove k m) ≤ count (points_to r) m
unfolding count remove
count-remove r k [] = omega arith
count-remove r k ((j, w) ∷ m) = ground (arith, count-remove r k m)

pub count-remove_found :
    (r : ℕ) (k : String) (m : List (String × ℕ))
    → find k m ≡ some r
    → count (points_to r) (remove k m) + 1 ≤ count (points_to r) m
unfolding count remove find
count-remove_found r k [] found = cc
count-remove_found r k ((j, w) ∷ m) found =
    ground (arith, count-remove r k m, count-remove_found r k m)

pub close_channel-live :
    (r : ℕ) (c : Connection) → 0 < live c r → close_channel r c ≡ some (closed r c)
unfolding close_channel
close_channel-live r c alive = ground arith

pub live-closed :
    (r k : ℕ) (c : Connection) → live (closed r c) k ≡ (if nat_eq k r then 0 else live c k)
unfolding set_channel
live-closed r k c = elim (Bool-cases (nat_eq k r)) [
  | inl same ↦ rw same (ground arith)
  | inr other ↦ rw other refl
]

close_all-cons :
    (k : String) (r : ℕ) (m : List (String × ℕ)) (c : Connection) {c' : Connection}
    → close_channel r c ≡ some c'
    → close_all ((k, r) ∷ m) c ≡ close_all m c'
unfolding close_all
close_all-cons k r m c ran = rw (ran, close_all) refl

-- If every channel of a map is open and stands in it once, all are closed without a panic, and the
-- channels that others hold stay open.
pub close_all-live :
    (m : List (String × ℕ)) (c : Connection) (others : ℕ → ℕ)
    → ((r : ℕ) → count (points_to r) m + others r ≤ live c r)
    → (c' : Connection) × (close_all m c ≡ some c') × ((r : ℕ) → others r ≤ live c' r)
unfolding close_all count
close_all-live [] c others sound = (c, refl, λ r. ground (arith, sound r))
close_all-live ((k, w) ∷ m) c others sound =
    let (c', ran, kept) = close_all-live m (closed w c) others (λ r. rest r) in
    (c', close_all-cons k w m c (close_channel-live w c (ground (arith, sound w))) ∙ ran, kept)
  where
    rest : (r : ℕ) → count (points_to r) m + others r ≤ live (closed w c) r
    rest r = elim (Bool-cases (nat_eq r w)) [
      | inl same ↦ ground (arith, sound r, live-closed w r c)
      | inr other ↦ ground (arith, sound r, live-closed w r c)
    ]

-- No channel queues more than its capacity.
abbrev pub AreBounded : (ℕ → Channel) → Type 0
AreBounded channels = (r : ℕ) → length (channels r).queue ≤ (channels r).capacity

pub set_channel-bounded :
    (r : ℕ) (channel : Channel) (c : Connection)
    → length channel.queue ≤ channel.capacity
    → AreBounded c.channels
    → AreBounded (set_channel r channel c).channels
unfolding set_channel
set_channel-bounded r channel c fits bounded k = elim (Bool-cases (nat_eq k r)) [
  | inl same ↦ rw same fits
  | inr other ↦ rw other (bounded k)
]

pub close_channel-bounded :
    (r : ℕ) (c c' : Connection)
    → close_channel r c ≡ some c'
    → AreBounded c.channels
    → AreBounded c'.channels
unfolding close_channel
close_channel-bounded r c c' ran bounded = elim (Bool-cases (c.channels r).is_closed) [
  | inl shut ↦ absurd (ground arith)
  | inr open_one ↦
      let e : c' ≡ closed r c = ground arith in
      rw e
        (set_channel-bounded r (record (c.channels r) { is_closed = true }) c (bounded r) bounded)
]

close_all-panics :
    (k : String) (r : ℕ) (m : List (String × ℕ)) (c : Connection)
    → close_channel r c ≡ none
    → close_all ((k, r) ∷ m) c ≡ none
unfolding close_all
close_all-panics k r m c ran = rw (ran, close_all) refl

-- What every close of one channel keeps, the closing of all keeps.
pub close_all-keeps {κ} :
    (P : Connection → Type κ)
    → ((r : ℕ) (c c' : Connection) → close_channel r c ≡ some c' → P c → P c')
    → (m : List (String × ℕ)) (c : Connection) {c' : Connection} → close_all m c ≡ some c'
    → P c
    → P c'
unfolding close_all
close_all-keeps P one [] c {c'} ran h = let e : c' ≡ c = cc in rw e h
close_all-keeps P one ((k, r) ∷ m) c {c'} ran h = elim (Option-cases (close_channel r c)) [
  | inl panics ↦ absurd (no_result panics)
  | inr (next, e) ↦
      close_all-keeps P one m next (sym (close_all-cons k r m c e) ∙ ran) (one r c next e h)
]
  where
    no_result : close_channel r c ≡ none → ⊥
    no_result panics = cc (close_all-panics k r m c panics)

pub close_channel-outbound :
    (r : ℕ) (c c' : Connection)
    → close_channel r c ≡ some c'
    → length c.outbound ≤ 32
    → length c'.outbound ≤ 32
unfolding close_channel set_channel
close_channel-outbound r c c' ran fits = ground arith
