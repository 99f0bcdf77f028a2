-- ===== src/Tunnel/Responses.antt =====
-- internal/agent/tunnel.go: forwardHTTPRequest; internal/server/agenthub/tunnel.go: Request's loop.
use quickworks.Base.{
  ℕ, String, Bool, true, false, Option, none, some, List, [], ◌∷◌, ◌++◌, ◌==◌, if◌then◌else◌,
}
use quickworks.Tunnel.{FrameType, Frame, empty_frame}

-- The error that a Read of the body returns: nil, io.EOF or another.
pub data ReadError : Type 0 where
  no_error end_of_file broken : ReadError

-- One Read: the bytes, 64 KiB at most, and the error beside them.
pub data Read : Type 0 where
  read : List ℕ → ReadError → Read

-- responseFrame once a Read with bytes was taken into it.
unfoldable pub filled : List ℕ → Bool → Frame → Frame
filled bytes more f = record f { body = bytes; more = more }

-- responseFrame after a Read that failed.
unfoldable pub broken_frame : Frame → Frame
broken_frame f = record f { body = []; more = false; error = "read workbench upstream response" }

-- `responseFrame.Headers = nil`
abbrev pub without_headers : Frame → Frame
without_headers f = record f { headers = [] }

-- The loop over the Reads, with responseFrame as its state: the frames that it writes. A write that
-- fails ends the loop there.
unfoldable pub forward_reads : Frame → List Read → List Frame
forward_reads f [] = []
forward_reads f (read (b ∷ bs) no_error ∷ rs) =
    filled (b ∷ bs) true f ∷ forward_reads (without_headers (filled (b ∷ bs) true f)) rs
forward_reads f (read (b ∷ bs) end_of_file ∷ rs) = filled (b ∷ bs) false f ∷ []
forward_reads f (read (b ∷ bs) broken ∷ rs) =
    filled (b ∷ bs) true f ∷ broken_frame (without_headers (filled (b ∷ bs) true f)) ∷ []
forward_reads f (read [] no_error ∷ rs) = forward_reads f rs
forward_reads f (read [] end_of_file ∷ rs) = record f { more = false } ∷ []
forward_reads f (read [] broken ∷ rs) = broken_frame f ∷ []

-- What the upstream answers: its status, headers and body, or no answer.
pub data Upstream : Type 0 where
  unavailable : Upstream
  answers : ℕ → List (String × List String) → List Read → Upstream

unfoldable pub response_frame : String → Frame
response_frame id = record empty_frame { type = FrameType.response; id = id }

abbrev pub refused_with : String → String → List Frame
refused_with id error = record (response_frame id) { error = error } ∷ []

-- forwardHTTPRequest; `path` is what upstreamPath makes of the request, `ask` the upstream on port 3000.
unfoldable pub forward_http_request :
    Option String → (String → Option Upstream) → String → List Frame
forward_http_request none ask id = refused_with id "invalid workbench request path"
forward_http_request (some path) ask id = elim (ask path) [
  | none ↦ refused_with id "invalid upstream request"
  | some unavailable ↦ refused_with id "workbench upstream unavailable"
  | some (answers status headers reads) ↦
      forward_reads (record (response_frame id) { status = status; headers = headers }) reads
]

abbrev pub is_unset : FrameType → Bool
is_unset FrameType.no_type = true
is_unset _ = false

-- One received frame taken into the result.
unfoldable pub merged : Frame → Frame → Frame
merged result received = if is_unset result.type then received else record result {
  body = result.body ++ received.body;
  error = if received.error == "" then result.error else received.error;
}

-- The loop of Connection.Request over the frames that arrive: none while it waits for more.
unfoldable pub gather : Frame → List Frame → Option Frame
gather result [] = none
gather result (f ∷ fs) =
    let rest = gather (merged result f) fs in if f.more then rest else some (merged result f)
