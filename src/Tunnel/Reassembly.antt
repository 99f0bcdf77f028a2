-- ===== src/Tunnel/Reassembly.antt =====
-- internal/agent/tunnel.go: a message that is split into frames is whole again behind the frame loop.
use mathlib.Core.List.{append_assoc}
use mathlib.Core.Path.{subst}
use quickworks.Base.{
  ℕ, zero, suc, ◌≤◌, ◌<◌, ◌≡◌, refl, sym, String, Bool, true, false, Option, none, List, [], ◌∷◌,
  ◌++◌, ◌==◌, arith, ltb, ltb→lt, length, take, drop, All, eq_refl, Bool-cases, inl, inr,
  take-append-drop, length-take, length-drop,
}
use quickworks.Tunnel.{Frame, max_frame_payload}
use quickworks.Tunnel.Messages.{
  message_frame, split_frames, write_web_socket_frames, Action, write_upstream, Streams, LoopError,
  body_of, forget, is_open, write_message, on_message, on_frame, on_frames, went_on,
}

take_all {ℓ} : {A : Type ℓ} (n : ℕ) (xs : List A) → length xs ≤ n → take n xs ≡ xs
take_all zero [] short = refl
take_all (suc n) [] short = refl
take_all zero (x ∷ xs) short = absurd (omega arith)
take_all (suc n) (x ∷ xs) short = rw (take_all n xs (omega arith)) refl

drop_all {ℓ} : {A : Type ℓ} (n : ℕ) (xs : List A) → length xs ≤ n → drop n xs ≡ []
drop_all zero [] short = refl
drop_all (suc n) [] short = refl
drop_all zero (x ∷ xs) short = absurd (omega arith)
drop_all (suc n) (x ∷ xs) short = drop_all n xs (omega arith)

forget_twice :
    (id : String) (bodies : List (String × List ℕ))
    → forget id (forget id bodies) ≡ forget id bodies
unfolding forget
forget_twice id [] = refl
forget_twice id ((k, b) ∷ rest) = ground (arith, forget_twice id rest)

-- The frame loop on a frame with more to come, and on the last one.
-- One message is written to the upstream, what was held of it first, and nothing of it stays.
abbrev pub delivered : String → String → List ℕ → Streams → Option LoopError × List Action × Streams
delivered id message_type body s = (
  none,
  write_upstream id (message_type == "binary") (body_of id s.bodies ++ body) ∷ [],
  record s { bodies = forget id s.bodies },
)

module _ (id message_type : String) (s : Streams) (opened : is_open id s ≡ true) where
  on_frame-more :
      (body : List ℕ)
      → on_frame none (message_frame id message_type body true) s
        ≡ went_on [] (record s { bodies = (id, body_of id s.bodies ++ body) ∷ forget id s.bodies })
  unfolding on_frame message_frame on_message
  on_frame-more body = rw opened refl

  on_frame-last :
      (body : List ℕ)
      → on_frame none (message_frame id message_type body false) s
        ≡ went_on
            (write_upstream id (message_type == "binary") (body_of id s.bodies ++ body) ∷ [])
            (record s { bodies = forget id s.bodies })
  unfolding on_frame message_frame on_message write_message
  on_frame-last body = rw opened refl

  -- The same on a list of frames.
  on_frames-last :
      (body part : List ℕ) (more : Bool) (fs : List Frame)
      → more ≡ false
      → part ≡ body
      → fs ≡ []
      → on_frames none (message_frame id message_type part more ∷ fs) s ≡ (
        none,
        write_upstream id (message_type == "binary") (body_of id s.bodies ++ body) ∷ [],
        record s { bodies = forget id s.bodies },
      )
  unfolding on_frames
  on_frames-last body part more fs done whole ended =
      rw (done, whole, ended) (rw (on_frame-last body, on_frames) refl)

  abbrev held : List ℕ → Streams
  held part = record s { bodies = (id, body_of id s.bodies ++ part) ∷ forget id s.bodies }

  held_body : (part : List ℕ) → body_of id (held part).bodies ≡ body_of id s.bodies ++ part
  unfolding body_of
  held_body part = rw (eq_refl id) refl

  held_open : (part : List ℕ) → is_open id (held part) ≡ true
  unfolding is_open
  held_open part = opened

  held_rest : (part : List ℕ) → forget id (held part).bodies ≡ forget id s.bodies
  unfolding forget
  held_rest part = rw (eq_refl id) (forget_twice id s.bodies)

  on_frames-more :
      (body part rest : List ℕ) (more : Bool) (fs : List Frame)
      → more ≡ true
      → part ++ rest ≡ body
      → on_frames none fs (held part) ≡ (
        none,
        write_upstream id (message_type == "binary") (body_of id (held part).bodies ++ rest) ∷ [],
        record s { bodies = forget id (held part).bodies },
      )
      → on_frames none (message_frame id message_type part more ∷ fs) s ≡ (
        none,
        write_upstream id (message_type == "binary") (body_of id s.bodies ++ body) ∷ [],
        record s { bodies = forget id s.bodies },
      )
  unfolding on_frames
  on_frames-more body part rest more fs going whole later =
      rw (going, ← whole)
        (rw (on_frame-more part, on_frames)
          (rw later (
            rw (held_body part, held_rest part, append_assoc (body_of id s.bodies) part rest)
              refl)))

split_frames_nil : (n : ℕ) (id message_type : String) → split_frames n id message_type [] ≡ []
unfolding split_frames
split_frames_nil zero id message_type = refl
split_frames_nil (suc n) id message_type = refl

positive-cons : (xs : List ℕ) → 0 < length xs → (y : ℕ) × (ys : List ℕ) × (xs ≡ y ∷ ys)
positive-cons [] some_byte = absurd (omega arith)
positive-cons (x ∷ xs) some_byte = (x, xs, refl)

-- What is left of more than a full frame: at least a byte, and less than before.
rest_short :
    (cap n : ℕ) (body : List ℕ)
    → 0 < cap
    → ltb cap (length body) ≡ true
    → length body ≤ suc n
    → (0 < length (drop cap body)) × (length (drop cap body) ≤ n)
rest_short cap n body positive going enough =
    let longer : cap < length body = ltb→lt cap (length body) going in
    (omega (arith, length-drop cap body), omega (arith, length-drop cap body))

-- The frames behind a full one, for a rest of the body that is whole by induction.
more_frames :
    (n : ℕ) (id message_type : String) (b : ℕ) (bs : List ℕ) (s : Streams)
    (opened : is_open id s ≡ true)
    → ltb max_frame_payload (length (b ∷ bs)) ≡ true
    → ((d : ℕ) (ds : List ℕ)
        → length (d ∷ ds) ≤ n
        → on_frames none
            (split_frames n id message_type (d ∷ ds))
            (held id message_type s opened (take max_frame_payload (b ∷ bs)))
          ≡ delivered id message_type
              (d ∷ ds)
              (held id message_type s opened (take max_frame_payload (b ∷ bs))))
    → length (b ∷ bs) ≤ suc n
    → on_frames none (split_frames (suc n) id message_type (b ∷ bs)) s
      ≡ delivered id message_type (b ∷ bs) s
unfolding split_frames
more_frames n id message_type b bs s opened going whole enough =
    let part : List ℕ = take max_frame_payload (b ∷ bs) in
    let rest : List ℕ = drop max_frame_payload (b ∷ bs) in
    let (some_byte, short) = rest_short max_frame_payload n (b ∷ bs) (omega arith) going enough in
    let (d, ds, e) = positive-cons rest some_byte in
    on_frames-more id message_type s opened (b ∷ bs) part rest _ _ going
      (take-append-drop max_frame_payload (b ∷ bs))
      (subst
        (λ xs.
          on_frames none (split_frames n id message_type xs) (held id message_type s opened part)
          ≡ delivered id message_type xs (held id message_type s opened part))
        (sym e) (whole d ds (subst (λ xs. length xs ≤ n) e short)))

split_frames-whole :
    (n : ℕ) (id message_type : String) (b : ℕ) (bs : List ℕ) (s : Streams)
    → is_open id s ≡ true
    → length (b ∷ bs) ≤ n
    → on_frames none (split_frames n id message_type (b ∷ bs)) s ≡ (
      none,
      write_upstream id (message_type == "binary") (body_of id s.bodies ++ b ∷ bs) ∷ [],
      record s { bodies = forget id s.bodies },
    )
unfolding split_frames on_frames
split_frames-whole zero id message_type b bs s opened enough = absurd (omega arith)
split_frames-whole (suc n) id message_type b bs s opened enough =
    elim (Bool-cases (ltb max_frame_payload (length (b ∷ bs)))) [
      | inl going ↦
          more_frames n id message_type b bs s opened going
            (λ d ds short.
              split_frames-whole n id message_type d ds
                (held id message_type s opened (take max_frame_payload (b ∷ bs)))
                (held_open id message_type s opened (take max_frame_payload (b ∷ bs))) short)
            enough
      | inr done ↦
          on_frames-last id message_type s opened (b ∷ bs) _ _ _ done
            (take_all max_frame_payload (b ∷ bs) (ground arith))
            (rw (drop_all max_frame_payload (b ∷ bs) (ground arith))
              (split_frames_nil n id message_type))
    ]

-- A message of any length that the agent splits into frames, sent into the frame loop while its
-- stream is open and the upstream takes the write, is written to the upstream once and whole,
-- behind what the stream held of an unfinished message, and nothing of it is held afterwards.
pub write_web_socket_frames-whole :
    (id message_type : String) (body : List ℕ) (s : Streams)
    → is_open id s ≡ true
    → on_frames none (write_web_socket_frames id message_type body) s
      ≡ delivered id message_type body s
unfolding write_web_socket_frames on_frames
write_web_socket_frames-whole id message_type [] s opened =
    on_frames-last id message_type s opened [] [] false [] refl refl refl
write_web_socket_frames-whole id message_type (b ∷ bs) s opened =
    split_frames-whole (length (b ∷ bs)) id message_type b bs s opened (omega arith)

split_frames-bounded :
    (n : ℕ) (id message_type : String) (body : List ℕ)
    → All (λ f. length f.body ≤ max_frame_payload) (split_frames n id message_type body)
unfolding split_frames message_frame
split_frames-bounded zero id message_type body = tt
split_frames-bounded (suc n) id message_type [] = tt
split_frames-bounded (suc n) id message_type (b ∷ bs) = (
  omega (arith, length-take max_frame_payload (b ∷ bs)),
  split_frames-bounded n id message_type (drop max_frame_payload (b ∷ bs)),
)

-- No frame of a message carries more than 64 KiB of it.
pub write_web_socket_frames-bounded :
    (id message_type : String) (body : List ℕ)
    → All (λ f. length f.body ≤ max_frame_payload) (write_web_socket_frames id message_type body)
unfolding write_web_socket_frames message_frame
write_web_socket_frames-bounded id message_type [] = (omega arith, tt)
write_web_socket_frames-bounded id message_type (b ∷ bs) =
    split_frames-bounded (length (b ∷ bs)) id message_type (b ∷ bs)
