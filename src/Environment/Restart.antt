-- ===== src/Environment/Restart.antt =====
-- internal/agent/supervisor.go: waitForHealth and RunWithRestart, over what each attempt meets. Delays
-- are in seconds.
use mathlib.Core.List.{append_assoc}
use quickworks.Base.{
  sym, zero, suc, all, ap, ℕ, ◌*◌, ◌≤◌, ◌≡◌, refl, Bool, true, false, not, ◌&&◌, ◌||◌, Option, none,
  some, List, [], ◌∷◌, ◌++◌, if◌then◌else◌, ltb, leb, arith, Bool-cases, inl, inr, nat_eq, any, ◌⊎◌,
}

-- What a round of waitForHealth waits for, once the probe failed.
pub data Wake : Type 0 where
  child_exited cancelled timed_out tick : Wake

-- The status of the probe's answer, if there is one.
pub record Round : Type 0 where
  pub status : Option ℕ
  pub wake : Wake

pub data Health : Type 0 where
  healthy unhealthy exited_early waiting : Health

abbrev pub is_success : Option ℕ → Bool
is_success none = false
is_success (some status) = leb 200 status && ltb status 300

-- What still comes out of the channel `exited`: its goroutine sends once, when the child has ended.
abbrev pub fresh_channel : ℕ
fresh_channel = 1

-- A receive, and what is left; from a channel with nothing to come it never returns.
abbrev pub take_exit : ℕ → Option ℕ
take_exit zero = none
take_exit (suc n) = some n

-- waitForHealth, with what it leaves in the channel. When the rounds end, it still waits.
unfoldable pub wait_for_health : List Round → ℕ → Health × ℕ
wait_for_health [] channel = (waiting, channel)
wait_for_health (round ∷ rounds) channel =
    if is_success round.status then (healthy, channel) else elim (round.wake) [
      | child_exited ↦ elim (take_exit channel) [
        | none ↦ (waiting, channel)
        | some rest ↦ (exited_early, rest)
      ]
      | cancelled ↦ (unhealthy, channel)
      | timed_out ↦ (unhealthy, channel)
      | tick ↦ wait_for_health rounds channel
    ]

-- Whether Command and Start succeed, what waitForHealth meets, whether `ready` succeeds, and whether the
-- context is done after the attempt and during the delay.
pub record Attempt : Type 0 where
  pub starts : Bool
  pub rounds : List Round
  pub ready : Bool
  pub is_done : Bool
  pub is_done_later : Bool

pub data Event : Type 0 where
  started reported_ready killed exited reported : Event
  waited : ℕ → Event

-- <-exited, after what has happened: whether the receive returns.
abbrev pub await : List Event → ℕ → List Event × Bool
await events channel = elim (take_exit channel) [
  | none ↦ (events, false)
  | some rest ↦ (events ++ exited ∷ [], true)
]

-- The rest of an attempt after waitForHealth. The end of a child that waitForHealth has received is an
-- event of its own.
unfoldable pub attend : Attempt → Health × ℕ → List Event × Bool
attend a (waiting, channel) = (started ∷ [], false)
attend a (healthy, channel) =
    if a.ready
    then await (started ∷ reported_ready ∷ []) channel
    else await (started ∷ killed ∷ []) channel
attend a (unhealthy, channel) = await (started ∷ killed ∷ []) channel
attend a (exited_early, channel) = await (started ∷ exited ∷ killed ∷ []) channel

-- An attempt up to the test of the context, and whether it gets there.
unfoldable pub run_child : Attempt → List Event × Bool
run_child a = if a.starts then attend a (wait_for_health a.rounds fresh_channel) else ([], true)

abbrev pub next_delay : ℕ → ℕ
next_delay delay = if ltb delay 60 then delay * 2 else delay

-- RunWithRestart from a delay on; nothing follows an attempt that does not return.
unfoldable pub run_from : ℕ → List Attempt → List Event
run_from delay [] = []
run_from delay (a ∷ attempts) =
    let rest = run_from (next_delay delay) attempts in
    let (events, returns) = run_child a in
    if not returns || a.is_done
    then events
    else (if a.is_done_later
        then events ++ reported ∷ []
        else events ++ reported ∷ waited delay ∷ rest)

unfoldable pub run_with_restart : List Attempt → List Event
run_with_restart attempts = run_from 1 attempts

-- A child starts only when none runs, and only a child that runs is reported ready or ends.
abbrev pub OneChild : Bool → List Event → Type 0
OneChild running [] = Unit
OneChild running (started ∷ events) = (running ≡ false) × OneChild true events
OneChild running (reported_ready ∷ events) = (running ≡ true) × OneChild running events
OneChild running (killed ∷ events) = OneChild running events
OneChild running (exited ∷ events) = (running ≡ true) × OneChild false events
OneChild running (reported ∷ events) = (running ≡ false) × OneChild running events
OneChild running (waited delay ∷ events) =
    (running ≡ false) × (delay ≤ 64) × OneChild running events

-- How waitForHealth ends: it takes the end of the child out of the channel, or leaves it there.
abbrev EndsAs : Health × ℕ → Type 0
EndsAs h =
    ((h ≡ (healthy, 1)) ⊎ (h ≡ (unhealthy, 1))) ⊎ ((h ≡ (waiting, 1)) ⊎ (h ≡ (exited_early, 0)))

by_wake :
    (status : Option ℕ) (wake : Wake) (rounds : List Round)
    → is_success status ≡ false
    → EndsAs (wait_for_health rounds fresh_channel)
    → EndsAs (wait_for_health (record { status = status; wake = wake } ∷ rounds) fresh_channel)
unfolding wait_for_health
by_wake status child_exited rounds ill rest = inr (inr (rw ill refl))
by_wake status cancelled rounds ill rest = inl (inr (rw ill refl))
by_wake status timed_out rounds ill rest = inl (inr (rw ill refl))
by_wake status tick rounds ill rest = rw ill rest

Health-cases : (rounds : List Round) → EndsAs (wait_for_health rounds fresh_channel)
unfolding wait_for_health
Health-cases [] = inr (inl refl)
Health-cases (round ∷ rounds) = elim (Bool-cases (is_success round.status)) [
  | inl well ↦ inl (inl (rw well refl))
  | inr ill ↦ by_wake round.status round.wake rounds ill (Health-cases rounds)
]

-- What an attempt does: it returns, without a child that runs, or it does not.
abbrev Returns : List Event × Bool → Type 0
Returns child =
    (child ≡ ([], true))
    ⊎ ((child ≡ (started ∷ reported_ready ∷ exited ∷ [], true))
        ⊎ (child ≡ (started ∷ killed ∷ exited ∷ [], true)))

abbrev Stays : List Event × Bool → Type 0
Stays child = (child ≡ (started ∷ [], false)) ⊎ (child ≡ (started ∷ exited ∷ killed ∷ [], false))

Child-cases : (a : Attempt) → Returns (run_child a) ⊎ Stays (run_child a)
unfolding run_child attend
Child-cases a = elim (Bool-cases a.starts) [
  | inr never ↦ inl (inl (rw never refl))
  | inl runs ↦ elim (Health-cases a.rounds) [
    | inl (inl well) ↦ elim (Bool-cases a.ready) [
      | inl told ↦ inl (inr (inl (rw (runs, well, told) refl)))
      | inr untold ↦ inl (inr (inr (rw (runs, well, untold) refl)))
    ]
    | inl (inr ill) ↦ inl (inr (inr (rw (runs, ill) refl)))
    | inr (inl waits) ↦ inr (inl (rw (runs, waits) refl))
    | inr (inr early) ↦ inr (inr (rw (runs, early) refl))
  ]
]

child_then :
    (child : List Event × Bool) (events : List Event)
    → Returns child
    → OneChild false events
    → OneChild false (child.0 ++ events)
child_then child events (inl never) rest = rw never rest
child_then child events (inr (inl served)) rest = rw served (refl, (refl, (refl, rest)))
child_then child events (inr (inr ended)) rest = rw ended (refl, (refl, rest))

child_alone : (child : List Event × Bool) → Returns child ⊎ Stays child → OneChild false child.0
child_alone child (inl (inl never)) = rw never tt
child_alone child (inl (inr (inl served))) = rw served (refl, (refl, (refl, tt)))
child_alone child (inl (inr (inr ended))) = rw ended (refl, (refl, tt))
child_alone child (inr (inl waits)) = rw waits (refl, tt)
child_alone child (inr (inr early)) = rw early (refl, (refl, tt))

returning : (a : Attempt) → (run_child a).1 ≡ true → Returns (run_child a)
returning a h = elim (Child-cases a) [
  | inl returns ↦ returns
  | inr (inl waits) ↦ absurd (ground (arith, ap (λ c. c.1) waits))
  | inr (inr early) ↦ absurd (ground (arith, ap (λ c. c.1) early))
]

-- The delays that the loop goes through.
abbrev is_delay : ℕ → Bool
is_delay d = any (λ e. nat_eq e d) (1 ∷ 2 ∷ 4 ∷ 8 ∷ 16 ∷ 32 ∷ 64 ∷ [])

-- The three ways of the loop after an attempt.
run_from-last :
    (delay : ℕ) (a : Attempt) (attempts : List Attempt)
    → not (run_child a).1 || a.is_done ≡ true
    → run_from delay (a ∷ attempts) ≡ (run_child a).0
unfolding run_from
run_from-last delay a attempts last = ground arith

run_from-stopped :
    (delay : ℕ) (a : Attempt) (attempts : List Attempt)
    → not (run_child a).1 || a.is_done ≡ false
    → a.is_done_later ≡ true
    → run_from delay (a ∷ attempts) ≡ (run_child a).0 ++ reported ∷ []
unfolding run_from
run_from-stopped delay a attempts ended stopped = ground arith

run_from-on :
    (delay : ℕ) (a : Attempt) (attempts : List Attempt)
    → not (run_child a).1 || a.is_done ≡ false
    → a.is_done_later ≡ false
    → run_from delay (a ∷ attempts)
      ≡ (run_child a).0 ++ reported ∷ waited delay ∷ run_from (next_delay delay) attempts
unfolding run_from
run_from-on delay a attempts ended on = ground arith

run_from_empty : (delay : ℕ) → run_from delay [] ≡ []
unfolding run_from
run_from_empty delay = refl

run_from-OneChild :
    (delay : ℕ) (attempts : List Attempt)
    → is_delay delay ≡ true
    → OneChild false (run_from delay attempts)
run_from-OneChild delay [] step = rw (run_from_empty delay) tt
run_from-OneChild delay (a ∷ attempts) step = elim (Bool-cases (not (run_child a).1 || a.is_done)) [
  | inl last ↦ rw (run_from-last delay a attempts last) (child_alone (run_child a) (Child-cases a))
  | inr ended ↦
      let returns = returning a (ground arith) in
      elim (Bool-cases a.is_done_later) [
        | inl stopped ↦
            rw (run_from-stopped delay a attempts ended stopped)
              (child_then (run_child a) (reported ∷ []) returns (refl, tt))
        | inr goes_on ↦ rw (run_from-on delay a attempts ended goes_on) (
            child_then (run_child a) _ returns (
              refl,
              (refl, ground arith, run_from-OneChild (next_delay delay) attempts (ground arith)),
            ))
      ]
]

-- Over any attempts, the supervisor starts a Workbench only when none of its own is running, kills
-- and awaits only one that is, and never waits for longer than 64 seconds between two attempts.
pub run_with_restart-OneChild :
    (attempts : List Attempt) → OneChild false (run_with_restart attempts)
unfolding run_with_restart
run_with_restart-OneChild attempts = run_from-OneChild 1 attempts refl

-- An attempt after which the loop goes round once more.
abbrev pub goes_on : Attempt → Bool
goes_on a = (run_child a).1 && (not a.is_done && not a.is_done_later)

early_child :
    (a : Attempt)
    → a.starts ≡ true
    → (wait_for_health a.rounds fresh_channel).0 ≡ exited_early
    → run_child a ≡ (started ∷ exited ∷ killed ∷ [], false)
unfolding run_child attend
early_child a runs early = elim (Health-cases a.rounds) [
  | inl (inl well) ↦ absurd (ground (arith, ap (λ h. h.0) well))
  | inl (inr ill) ↦ absurd (ground (arith, ap (λ h. h.0) ill))
  | inr (inl waits) ↦ absurd (ground (arith, ap (λ h. h.0) waits))
  | inr (inr ended) ↦ rw (runs, ended) refl
]

run_from-stuck :
    (delay : ℕ) (before : List Attempt) (a : Attempt) (after : List Attempt)
    → all goes_on before ≡ true
    → a.starts ≡ true
    → (wait_for_health a.rounds fresh_channel).0 ≡ exited_early
    → run_from delay (before ++ a ∷ after) ≡ run_from delay before ++ started ∷ exited ∷ killed ∷ []
run_from-stuck delay [] a after reached runs early =
    let child = early_child a runs early in
    rw (run_from-last delay a after (rw child refl), run_from_empty, child) refl
run_from-stuck delay (b ∷ before) a after reached runs early =
    let tail = run_from-stuck (next_delay delay) before a after (ground arith) runs early in
    let ended : not (run_child b).1 || b.is_done ≡ false = ground arith in
    let on : b.is_done_later ≡ false = ground arith in
    rw
      (
        run_from-on delay b (before ++ a ∷ after) ended on,
        run_from-on delay b before ended on,
        tail,
      )
      (sym (append_assoc (run_child b).0 _ _))

-- When the attempts before it have gone round the loop and a Workbench then ends before it is
-- healthy, its end is received by waitForHealth, the process is killed, and the receive after that
-- never returns: nothing is reported, waited for or started any more, whatever attempts would
-- follow.
pub run_with_restart-stuck :
    (before : List Attempt) (a : Attempt) (after : List Attempt)
    → all goes_on before ≡ true
    → a.starts ≡ true
    → (wait_for_health a.rounds fresh_channel).0 ≡ exited_early
    → run_with_restart (before ++ a ∷ after)
      ≡ run_with_restart before ++ started ∷ exited ∷ killed ∷ []
unfolding run_with_restart
run_with_restart-stuck before a after reached runs early =
    run_from-stuck 1 before a after reached runs early
