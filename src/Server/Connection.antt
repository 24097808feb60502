-- ===== src/Server/Connection.antt =====
-- server.rs, `handle_conn`: a connection as a state machine. Its inputs are the lines that it reads, its
-- end, and what ends a wait of its poll; each says whether the answer could be written.
use forksan.Prelude.{
  ℕ, zero, suc, Bool, true, false, not, ◌&&◌, List, [], ◌∷◌, ◌++◌, Option, some, none, Text, codes,
  nat_eq, ◌==◌, trim, is_empty, to_string, if◌then◌else◌,
}
use forksan.Planner.{Daemon}
use forksan.Waits.{
  Poll, Phase, Wait, pending, done, waited, wake, dropped, Move, lost, move, handle_stop_wait,
}
use forksan.Protocol.{
  proto_version, RequestBody, stop_wait, shutdown, Request, proto_mismatch, bad_request,
  ResponseBody, wake_up, stopped_waiting, failed, Response,
}
use forksan.Server.{Service, Readout, Outcome, answered, waits, dispatch}

pub data Connection : Type 0 where
  reading : Connection
  polling : ℕ → Poll → Phase → Connection
  closed_connection : Connection

pub data Input : Type 0 where
  line : Text → Readout → Bool → Input
  end_of_file : Input
  moved : Move → Bool → Input

-- The state after an input, and what was written.
abbrev pub Step : Type 0
Step = Daemon × Connection × List Response

abbrev response : ℕ → ResponseBody → Response
response id body = record { proto = proto_version; id = id; body = body }

-- An error of the frame is written as well as it can be.
unfoldable pub write_error : Bool → ℕ → ResponseBody → Daemon → Step
write_error true id body d = (d, reading, response id body ∷ [])
write_error false id body d = (d, reading, [])

-- An answer that cannot be written closes the connection.
unfoldable pub write_body : Bool → ℕ → ResponseBody → Daemon → Step
write_body true id body d = (d, reading, response id body ∷ [])
write_body false id body d = (d, closed_connection, [])

-- The race of a poll with the connection.
unfoldable pub poll_for : Bool → ℕ → Daemon × Wait → Step
unfolding write_body
poll_for written id (d, pending poll phase) = (d, polling id poll phase, [])
poll_for written id (d, done waited) = write_body written id stopped_waiting d
poll_for written id (d, done (wake payload)) = write_body written id (wake_up payload) d
poll_for written id (d, done dropped) = (d, closed_connection, [])

unfoldable pub finish : Bool → ℕ → Daemon × Outcome → Step
unfolding write_body poll_for
finish written id (d, answered body) = write_body written id body d
finish written id (d, waits w) = poll_for written id (d, w)

-- The frozen shutdown frame.
is_shutdown : RequestBody → Bool
is_shutdown (shutdown drain) = true
is_shutdown body = false

unfoldable pub is_mismatched : Request → Bool
unfolding is_shutdown
is_mismatched req = not (req.proto == proto_version) && not (is_shutdown req.body)

unfoldable pub handle_body : Service → Readout → Bool → ℕ → RequestBody → Daemon → Step
unfolding finish poll_for
handle_body service r written id (stop_wait ev) d =
    poll_for written id (handle_stop_wait service.machine ev r.started d)
handle_body service r written id body d = finish written id (dispatch service r body d)

mismatch : ℕ → ResponseBody
mismatch proto = failed proto_mismatch (
    codes "daemon speaks proto "
    ++ (to_string proto_version ++ (codes ", client sent " ++ to_string proto)))

unfoldable pub handle_request : Service → Readout → Bool → Text → Option Request → Daemon → Step
unfolding write_error is_mismatched handle_body mismatch
handle_request service r written text none d =
    write_error written 0 (failed bad_request (codes "bad request: " ++ service.error text)) d
handle_request service r written text (some req) d =
    if is_mismatched req
    then write_error written req.id (mismatch req.proto) d
    else handle_body service r written req.id req.body d

unfoldable pub handle_line : Service → Readout → Bool → Text → Daemon → Step
unfolding handle_request
handle_line service r written text d =
    if is_empty (trim text)
    then (d, reading, [])
    else handle_request service r written text (service.from_str text) d

-- While a poll waits, a line is ignored, and the end of the connection loses the poll.
unfoldable pub step : Service → Input → Connection → Daemon → Step
unfolding handle_line poll_for
step service (line text r written) reading d = handle_line service r written text d
step service (line text r written) (polling id poll phase) d = (d, polling id poll phase, [])
step service end_of_file (polling id poll phase) d =
    ((move service.machine lost (pending poll phase) d).0, closed_connection, [])
step service end_of_file reading d = (d, closed_connection, [])
step service (moved mv written) (polling id poll phase) d =
    poll_for written id (move service.machine mv (pending poll phase) d)
step service (moved mv written) reading d = (d, reading, [])
step service input closed_connection d = (d, closed_connection, [])

-- `serve`: an input of one of the connections.
unfoldable pub serve : Service → ℕ → Input → List Connection → Daemon → Daemon × List Connection
unfolding step
serve service i input [] d = (d, [])
serve service zero input (c ∷ cs) d = let (d', c', out) = step service input c d in (d', c' ∷ cs)
serve service (suc i) input (c ∷ cs) d = let (d', cs') = serve service i input cs d in (d', c ∷ cs')
