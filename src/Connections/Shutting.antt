-- ===== src/Connections/Shutting.antt =====
-- internal/server/agenthub/tunnel.go: what closes channels closes each of them once.
use quickworks.Base.{
  ℕ, ◌+◌, ◌≤◌, ◌≡◌, refl, String, true, false, some, List, [], ◌∷◌, if◌then◌else◌, nat_eq, length,
  arith, Bool-cases, Option-cases, inl, inr, any,
}
use quickworks.Base.Maps.{find, remove}
use quickworks.Table.{count, select, delete}
use quickworks.Table.Changes.{count-delete_mono}
use quickworks.Connections.{
  Connection, set_channel, close_channel, close_all, cleanup, take_stream, close, holds,
}
use quickworks.Connections.Closing.{
  points_to, live, closed, count-remove, count-remove_found, close_channel-live, close_all-live,
  AreBounded, close_channel-bounded, close_all-keeps, close_channel-outbound,
}
use quickworks.Connections.Schedules.{
  System, take, clean_up, close_taken, hang_up, step, with_connection,
}
use quickworks.Connections.Opening.{is_number, references, IsSound, GoesOn}

-- If the system without one reference to a channel still has that channel open, it may close it.
pub close_channel-IsSound :
    (r : ℕ) (s : System)
    → ((k : ℕ) → references s k + (if nat_eq k r then 1 else 0) ≤ live s.connection k)
    → AreBounded s.connection.channels
    → length s.connection.outbound ≤ 32
    → GoesOn (with_connection s (close_channel r s.connection))
unfolding set_channel
close_channel-IsSound r s spare bounded outbound = (
  record s { connection = closed r s.connection },
  rw (close_channel-live r s.connection (ground (arith, spare r))) refl,
  record {
    single = λ k. ground (arith, spare k);
    bounded = λ k. ground (arith, bounded k);
    outbound_bounded = outbound;
  },
)

pub holds-found :
    (id : String) (r : ℕ) (m : List (String × ℕ)) → holds id r m ≡ true → find id m ≡ some r
unfolding holds
holds-found id r m its = ground arith

pub cleanup-IsSound :
    (id : String) (stream : ℕ) (s : System) → IsSound s → GoesOn (step (clean_up id stream) s)
unfolding step cleanup
cleanup-IsSound id stream s sound = elim (Bool-cases (holds id stream s.connection.streams)) [
  | inl its ↦
      rw its
        (close_channel-IsSound stream forgotten (spare its) sound.bounded sound.outbound_bounded)
  | inr other ↦ rw other (forgotten, refl, still_sound)
]
  where
    forgotten : System
    forgotten = record s {
      connection = record s.connection {
        pending = remove id s.connection.pending;
        streams = remove id s.connection.streams;
      };
    }

    still_sound : IsSound forgotten
    still_sound = record {
      single = λ r. omega (
        arith,
        sound.single r,
        count-remove r id s.connection.pending,
        count-remove r id s.connection.streams,
      );
      bounded = sound.bounded;
      outbound_bounded = sound.outbound_bounded;
    }

    spare :
        holds id stream s.connection.streams ≡ true
        → (k : ℕ)
        → references forgotten k + (if nat_eq k stream then 1 else 0) ≤ live s.connection k
    spare its k = elim (Bool-cases (nat_eq k stream)) [
      | inl same ↦ ground (
        arith,
        sound.single k,
        count-remove k id s.connection.pending,
        count-remove_found k id s.connection.streams,
        holds-found id stream s.connection.streams its,
      )
      | inr other ↦ ground (
        arith,
        sound.single k,
        count-remove k id s.connection.pending,
        count-remove k id s.connection.streams,
      )
    ]

pub take_stream-IsSound : (id : String) (s : System) → IsSound s → GoesOn (step (take id) s)
unfolding step take_stream
take_stream-IsSound id s sound = elim (Option-cases (find id s.connection.streams)) [
  | inl gone ↦ rw gone (
    record s { connection = record s.connection { streams = remove id s.connection.streams } },
    refl,
    record {
      single = λ r. omega (arith, sound.single r, count-remove r id s.connection.streams);
      bounded = sound.bounded;
      outbound_bounded = sound.outbound_bounded;
    },
  )
  | inr (k, found) ↦ rw found (
    record s {
      connection = record s.connection { streams = remove id s.connection.streams };
      closing = k ∷ s.closing;
    },
    refl,
    record {
      single = λ r.
          unfold count in
          ground (
            arith,
            sound.single r,
            count-remove r id s.connection.streams,
            count-remove_found r id s.connection.streams,
          );
      bounded = sound.bounded;
      outbound_bounded = sound.outbound_bounded;
    },
  )
]

pub count-delete_number :
    (r k : ℕ) (rs : List ℕ)
    → any (λ j. nat_eq j r) rs ≡ true
    → count (is_number k) (delete (λ j. nat_eq j r) rs) + (if nat_eq k r then 1 else 0)
      ≤ count (is_number k) rs
unfolding count delete select
count-delete_number r k [] listed = cc
count-delete_number r k (j ∷ rs) listed =
    ground (arith, count-delete_number r k rs, count-delete_mono (λ j. nat_eq j r) (is_number k) rs)

pub close_taken-IsSound : (r : ℕ) (s : System) → IsSound s → GoesOn (step (close_taken r) s)
unfolding step
close_taken-IsSound r s sound = elim (Bool-cases (any (λ k. nat_eq k r) s.closing)) [
  | inl listed ↦ rw listed (
      close_channel-IsSound r (record s { closing = delete (λ k. nat_eq k r) s.closing })
        (λ k. omega (arith, sound.single k, count-delete_number r k s.closing listed)) sound.bounded
        sound.outbound_bounded)
  | inr unlisted ↦ rw unlisted (s, refl, sound)
]

pub close-lem :
    (c c' c'' : Connection)
    → c.is_open ≡ true
    → close_all c.pending c ≡ some c'
    → close_all c.streams c' ≡ some c''
    → close c ≡ some (record c'' { is_open = false; pending = []; streams = [] })
unfolding close
close-lem c c' c'' still first_map second_map = ground arith

pub hang_up-IsSound : (s : System) → IsSound s → GoesOn (step hang_up s)
unfolding step
hang_up-IsSound s sound = elim (Bool-cases s.connection.is_open) [
  | inl still ↦
      let (c', ran, kept) =
        close_all-live s.connection.pending s.connection
          (λ r. count (points_to r) s.connection.streams + count (is_number r) s.closing)
          (λ r. omega (arith, sound.single r)) in
      let (c'', ran', kept') =
        close_all-live s.connection.streams c' (λ r. count (is_number r) s.closing) kept in
      (
        record s { connection = record c'' { is_open = false; pending = []; streams = [] } },
        rw (close-lem s.connection c' c'' still ran ran') refl,
        record {
          single = λ r. unfold count in ground (arith, kept' r);
          bounded = both _ close_channel-bounded c' c'' ran ran' sound.bounded;
          outbound_bounded = both _ close_channel-outbound c' c'' ran ran' sound.outbound_bounded;
        },
      )
  | inr shut ↦ (s, shut_already shut, sound)
]
  where
    both :
        (P : Connection → Type 0)
        → ((r : ℕ) (c c' : Connection) → close_channel r c ≡ some c' → P c → P c')
        → (c' c'' : Connection) → close_all s.connection.pending s.connection ≡ some c'
        → close_all s.connection.streams c' ≡ some c''
        → P s.connection
        → P c''
    both P one c' c'' ran ran' h =
        close_all-keeps P one s.connection.streams c' ran'
          (close_all-keeps P one s.connection.pending s.connection ran h)

    shut_already : s.connection.is_open ≡ false → with_connection s (close s.connection) ≡ some s
    shut_already shut = unfold close in ground arith
