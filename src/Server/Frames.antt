-- ===== src/Server/Frames.antt =====
-- Which answers a connection writes, and in which order.
use mathlib.Core.List.{map-append}
use forksan.Prelude.{
  ℕ, Bool, true, false, ◌&&◌, List, [], ◌∷◌, ◌++◌, append_assoc, append-nil, map, Option, some,
  none, Text, trim, is_empty, if◌then◌else◌, ◌≡◌, refl, sym, ap, ◌∙◌, Bool-cases, inl, inr,
}
use forksan.Planner.{Daemon}
use forksan.Waits.{Wait, pending, done, waited, wake, dropped, move, handle_stop_wait}
use forksan.Protocol.{
  Request, RequestBody, hello, event, stop_wait, status_request, list_forks, prune_request,
  shutdown, Response,
}
use forksan.Server.{Service, Readout, dispatch, prune_sessions}
use forksan.Waits.Dropped.{is_dropped, is_live, handle_stop_wait-is_dropped, move-is_dropped}
use forksan.Server.Connection.{
  Connection, reading, polling, closed_connection, Input, line, end_of_file, moved, Step,
  write_body, write_error, poll_for, finish, handle_body, is_mismatched, handle_request,
  handle_line, step,
}

-- The id of the poll that waits.
abbrev pub awaited : Connection → List ℕ
awaited (polling id poll phase) = id ∷ []
awaited c = []

-- The id that the answer to a frame carries: none can be read from a frame that does not parse.
abbrev pub id_of : Option Request → ℕ
id_of none = 0
id_of (some req) = req.id

-- The frame that a line brings; one that comes while a poll waits is ignored.
abbrev pub asked : Service → Input → Connection → List ℕ
asked service (line text r written) reading =
    if is_empty (trim text) then [] else id_of (service.from_str text) ∷ []
asked service input c = []

-- The connection stays open, and what is written arrives.
abbrev pub is_open : Input → Bool
is_open (line text r written) = written
is_open end_of_file = false
is_open (moved mv written) = written && is_live mv

-- What is written, and the poll that is left.
abbrev answers : Step → List ℕ
answers (d, c, out) = map Response.id out ++ awaited c

poll_for-answers :
    (id : ℕ) (d : Daemon) (w : Wait)
    → is_dropped w ≡ false
    → answers (poll_for true id (d, w)) ≡ id ∷ []
unfolding poll_for write_body is_dropped
poll_for-answers id d (pending poll phase) h = refl
poll_for-answers id d (done waited) h = refl
poll_for-answers id d (done (wake payload)) h = refl
poll_for-answers id d (done dropped) h = cc

handle_body-answers :
    (service : Service) (r : Readout) (id : ℕ) (body : RequestBody) (d : Daemon)
    → answers (handle_body service r true id body d) ≡ id ∷ []
unfolding handle_body finish dispatch prune_sessions write_body
handle_body-answers service r id (stop_wait ev) d =
    let (d', w) = handle_stop_wait service.machine ev r.started d in
    poll_for-answers id d' w (handle_stop_wait-is_dropped service.machine ev r.started d)
handle_body-answers service r id (hello version) d = refl
handle_body-answers service r id (event ev) d = refl
handle_body-answers service r id status_request d = refl
handle_body-answers service r id (list_forks project_root cwd) d = refl
handle_body-answers service r id prune_request d = refl
handle_body-answers service r id (shutdown drain) d = refl

if-answers :
    (c : Bool) (a b : Step) (ids : List ℕ)
    → answers a ≡ ids
    → answers b ≡ ids
    → answers (if◌then◌else◌ {A = Step} c a b) ≡ ids
if-answers true a b ids p q = p
if-answers false a b ids p q = q

handle_request-answers :
    (service : Service) (r : Readout) (text : Text) (o : Option Request) (d : Daemon)
    → answers (handle_request service r true text o d) ≡ id_of o ∷ []
unfolding handle_request write_error
handle_request-answers service r text none d = refl
handle_request-answers service r text (some req) d =
    if-answers (is_mismatched req) _ _ (req.id ∷ []) refl
      (handle_body-answers service r req.id req.body d)

handle_line-answers :
    (service : Service) (r : Readout) (text : Text) (d : Daemon)
    → answers (handle_line service r true text d) ≡ asked service (line text r true) reading
unfolding handle_line
handle_line-answers service r text d = elim (Bool-cases (is_empty (trim text))) [
  | inl blank ↦ rw blank refl
  | inr full ↦ rw full (handle_request-answers service r text (service.from_str text) d)
]

step-answers :
    (service : Service) (input : Input) (c : Connection) (d : Daemon)
    → is_open input ≡ true
    → answers (step service input c d) ≡ awaited c ++ asked service input c
unfolding step
step-answers service (line text r true) reading d h = handle_line-answers service r text d
step-answers service (line text r false) reading d h = cc
step-answers service (line text r written) (polling id poll phase) d h = refl
step-answers service (line text r written) closed_connection d h = refl
step-answers service end_of_file c d h = cc
step-answers service (moved mv true) (polling id poll phase) d h =
    let (d', w) = move service.machine mv (pending poll phase) d in
    poll_for-answers id d' w (move-is_dropped service.machine mv poll phase d h)
step-answers service (moved mv false) (polling id poll phase) d h = cc
step-answers service (moved mv written) reading d h = refl
step-answers service (moved mv written) closed_connection d h = refl

-- The inputs of a connection, with what else happens to the daemon before each; the result is the
-- connection, what was written, and the ids that were asked for.
unfoldable pub talk :
    Service
    → List (Input × (Daemon → Daemon))
    → Connection
    → Daemon
    → Connection × List Response × List ℕ
talk service [] c d = (c, [], [])
talk service ((input, others) ∷ inputs) c d =
    let (d1, c1, out) = step service input c (others d) in
    let (c2, out2, ids) = talk service inputs c1 d1 in
    (c2, out ++ out2, asked service input c ++ ids)

unfoldable pub AllOpen : List (Input × (Daemon → Daemon)) → Type 0
AllOpen [] = Unit
AllOpen ((input, others) ∷ inputs) = (is_open input ≡ true) × AllOpen inputs

talk-answers :
    (service : Service) (inputs : List (Input × (Daemon → Daemon))) (c : Connection) (d : Daemon)
    → AllOpen inputs
    → map Response.id (talk service inputs c d).1 ++ awaited (talk service inputs c d).0
      ≡ awaited c ++ (talk service inputs c d).2
unfolding talk AllOpen
talk-answers service [] c d h = sym (append-nil (awaited c))
talk-answers service ((input, others) ∷ inputs) c d (h, hs) =
    let (d1, c1, out) = step service input c (others d) in
    let (c2, out2, ids) = talk service inputs c1 d1 in
    ap (λ xs. xs ++ awaited c2) (map-append Response.id out out2)
    ∙ (append_assoc (map Response.id out) (map Response.id out2) (awaited c2)
        ∙ (ap (λ xs. map Response.id out ++ xs) (talk-answers service inputs c1 d1 hs)
            ∙ (sym (append_assoc (map Response.id out) (awaited c1) ids)
                ∙ (ap (λ xs. xs ++ ids) (step-answers service input c (others d) h)
                    ∙ append_assoc (awaited c) (asked service input c) ids))))

-- As long as a connection is open and its answers arrive, each frame that is not blank and does not come
-- while a poll waits is answered once and in order, under its own id (0 if it does not parse), whatever
-- else happens to the daemon; only the answer to the last one may be out, while its poll waits.
pub talk-in_order :
    (service : Service) (inputs : List (Input × (Daemon → Daemon))) (d : Daemon)
    → AllOpen inputs
    → map Response.id (talk service inputs reading d).1 ++ awaited (talk service inputs reading d).0
      ≡ (talk service inputs reading d).2
talk-in_order service inputs d h = talk-answers service inputs reading d h
