-- ===== src/Tunnel/Delivery.antt =====
-- internal/agent/tunnel.go and internal/server/agenthub/tunnel.go: responses as they arrive.
use quickworks.Base.{
  ℕ, String, ◌≡◌, refl, Bool, true, false, Option, none, some, List, [], ◌∷◌, ◌++◌, arith,
  Bool-cases, inl, inr,
}
use mathlib.Core.List.{append_assoc, append-nil}
use quickworks.Tunnel.{FrameType, Frame, empty_frame}
use quickworks.Tunnel.Responses.{
  Read, read, no_error, end_of_file, broken, filled, without_headers, broken_frame, forward_reads,
  merged, gather, is_unset, response_frame, forward_http_request, Upstream, answers,
}

abbrev before : List ℕ → Option (List ℕ) → Option (List ℕ)
before bytes none = none
before bytes (some rest) = some (bytes ++ rest)

-- The body of a response that is read to its end.
abbrev pub whole_body : List Read → Option (List ℕ)
whole_body [] = none
whole_body (read bytes no_error ∷ rs) = before bytes (whole_body rs)
whole_body (read bytes end_of_file ∷ rs) = some bytes
whole_body (read bytes broken ∷ rs) = none

-- The bytes that are still in responseFrame when the end comes alone: they are sent once more.
abbrev pub sent_again : List ℕ → List Read → List ℕ
sent_again held [] = []
sent_again held (read [] no_error ∷ rs) = sent_again held rs
sent_again held (read (b ∷ bs) no_error ∷ rs) = sent_again (b ∷ bs) rs
sent_again held (read [] end_of_file ∷ rs) = held
sent_again held (read (b ∷ bs) end_of_file ∷ rs) = []
sent_again held (read bytes broken ∷ rs) = []

before-some :
    (bytes : List ℕ) (o : Option (List ℕ)) (body : List ℕ)
    → before bytes o ≡ some body
    → (rest : List ℕ) × (o ≡ some rest) × (body ≡ bytes ++ rest)
before-some bytes none body h = cc
before-some bytes (some rest) body h = (rest, refl, cc)

merged_known :
    (result f : Frame)
    → result.type ≡ FrameType.response
    → f.error ≡ ""
    → merged result f ≡ record result { body = result.body ++ f.body }
unfolding merged
merged_known result f typed fine = rw (typed, fine) refl

gather-forward :
    (result f : Frame) (rs : List Read) (body : List ℕ)
    → result.type ≡ FrameType.response
    → f.error ≡ ""
    → whole_body rs ≡ some body
    → gather result (forward_reads f rs)
      ≡ some (record result { body = result.body ++ (body ++ sent_again f.body rs) })
unfolding gather forward_reads merged filled
gather-forward result f [] body typed fine whole = cc
gather-forward result f (read [] no_error ∷ rs) body typed fine whole =
    let (rest, e, same) = before-some [] (whole_body rs) body whole in
    rw same (gather-forward result f rs rest typed fine e)
gather-forward result f (read (b ∷ bs) no_error ∷ rs) body typed fine whole =
    let (rest, e, same) = before-some (b ∷ bs) (whole_body rs) body whole in
    let sent : Frame = filled (b ∷ bs) true f in
    rw
      (
        merged_known result sent typed fine,
        same,
        append_assoc (b ∷ bs) rest (sent_again (b ∷ bs) rs),
      )
      (rw (append_assoc result.body (b ∷ bs) (rest ++ sent_again (b ∷ bs) rs)) at (
        gather-forward (record result { body = result.body ++ b ∷ bs }) (without_headers sent) rs
          rest typed fine e))
gather-forward result f (read [] end_of_file ∷ rs) body typed fine whole =
    rw (merged_known result (record f { more = false }) typed fine) (ground arith)
gather-forward result f (read (b ∷ bs) end_of_file ∷ rs) body typed fine whole =
    rw (merged_known result (filled (b ∷ bs) false f) typed fine) (ground (arith, append-nil body))
gather-forward result f (read bytes broken ∷ rs) body typed fine whole = cc

-- The first frame starts the result.
gather-first :
    (f : Frame) (rs : List Read) (body : List ℕ)
    → f.type ≡ FrameType.response
    → f.error ≡ ""
    → whole_body rs ≡ some body
    → (r : Frame) × (gather empty_frame (forward_reads f rs) ≡ some r)
      × (r.status ≡ f.status)
      × (r.headers ≡ f.headers)
      × (r.error ≡ "")
      × (r.body ≡ body ++ sent_again f.body rs)
unfolding gather forward_reads merged filled
gather-first f [] body typed fine whole = cc
gather-first f (read [] no_error ∷ rs) body typed fine whole =
    let (rest, e, same) = before-some [] (whole_body rs) body whole in
    rw same (gather-first f rs rest typed fine e)
gather-first f (read (b ∷ bs) no_error ∷ rs) body typed fine whole =
    let (rest, e, same) = before-some (b ∷ bs) (whole_body rs) body whole in
    let sent : Frame = filled (b ∷ bs) true f in
    (
      _,
      gather-forward sent (without_headers sent) rs rest typed fine e,
      refl,
      refl,
      fine,
      rw (same, append_assoc (b ∷ bs) rest (sent_again (b ∷ bs) rs)) refl,
    )
gather-first f (read [] end_of_file ∷ rs) body typed fine whole =
    (record f { more = false }, refl, refl, refl, fine, ground arith)
gather-first f (read (b ∷ bs) end_of_file ∷ rs) body typed fine whole =
    (filled (b ∷ bs) false f, refl, refl, refl, fine, ground (arith, append-nil body))
gather-first f (read bytes broken ∷ rs) body typed fine whole = cc

-- A response whose body is read to its end arrives through the tunnel with its status and headers
-- and without an error; its body is the upstream's, and behind it once more the last chunk, if the
-- end was read without bytes.
pub forward-arrives :
    (path id : String) (ask : String → Option Upstream) (status : ℕ)
    (headers : List (String × List String)) (rs : List Read) (body : List ℕ)
    → ask path ≡ some (answers status headers rs)
    → whole_body rs ≡ some body
    → (r : Frame) × (gather empty_frame (forward_http_request (some path) ask id) ≡ some r)
      × (r.status ≡ status)
      × (r.headers ≡ headers)
      × (r.error ≡ "")
      × (r.body ≡ body ++ sent_again [] rs)
unfolding forward_http_request response_frame
forward-arrives path id ask status headers rs body answered whole =
    rw (answered, forward_http_request)
      (gather-first (record (response_frame id) { status = status; headers = headers }) rs body refl
        refl whole)

-- A body that breaks off.
abbrev pub breaks_off : List Read → Bool
breaks_off [] = false
breaks_off (read bytes no_error ∷ rs) = breaks_off rs
breaks_off (read bytes end_of_file ∷ rs) = false
breaks_off (read bytes broken ∷ rs) = true

abbrev pub broken_message : String
broken_message = "read workbench upstream response"

merged-error :
    (result f : Frame) → f.error ≡ broken_message → (merged result f).error ≡ broken_message
unfolding merged
merged-error result f e = elim (Bool-cases (is_unset result.type)) [
  | inl unset ↦ rw unset e
  | inr set ↦ rw (set, e) refl
]

gather-broken :
    (result f : Frame) (rs : List Read)
    → breaks_off rs ≡ true
    → (r : Frame) × (gather result (forward_reads f rs) ≡ some r) × (r.error ≡ broken_message)
unfolding gather forward_reads merged filled broken_frame
gather-broken result f [] broke = cc
gather-broken result f (read [] no_error ∷ rs) broke = gather-broken result f rs broke
gather-broken result f (read (b ∷ bs) no_error ∷ rs) broke =
    gather-broken (merged result (filled (b ∷ bs) true f))
      (without_headers (filled (b ∷ bs) true f)) rs broke
gather-broken result f (read bytes end_of_file ∷ rs) broke = cc
gather-broken result f (read [] broken ∷ rs) broke =
    (_, refl, merged-error result (broken_frame f) refl)
gather-broken result f (read (b ∷ bs) broken ∷ rs) broke =
    let sent : Frame = filled (b ∷ bs) true f in
    (_, refl, merged-error (merged result sent) (broken_frame (without_headers sent)) refl)

-- A response whose body breaks off, at any point, arrives as a result that carries the error of the
-- broken read.
pub forward-breaks :
    (path id : String) (ask : String → Option Upstream) (status : ℕ)
    (headers : List (String × List String)) (rs : List Read)
    → ask path ≡ some (answers status headers rs)
    → breaks_off rs ≡ true
    → (r : Frame) × (gather empty_frame (forward_http_request (some path) ask id) ≡ some r)
      × (r.error ≡ broken_message)
unfolding forward_http_request
forward-breaks path id ask status headers rs answered broke =
    rw (answered, forward_http_request) (gather-broken empty_frame _ rs broke)
