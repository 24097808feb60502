-- ===== src/Server/Balance.antt =====
-- Each step of a connection keeps the count of parked polls in balance.

use forksan.Prelude.{
  ℕ, ◌≤◌, text_eq, Bool, true, false, List, [], ◌∷◌, Option, none, some, Text, ap, refl, ◌∙◌, ◌≡◌,
  ◌+◌, if◌then◌else◌, arith, zero, suc, trim, is_empty,
}
use forksan.Events.{touch_busy}
use forksan.Protocol.{
  RequestBody, hello, event, stop_wait, status_request, list_forks, prune_request, shutdown,
  Request, ResponseBody,
}
use forksan.Server.{Service, Readout, dispatch, prune_sessions}
use forksan.Planner.{Daemon}
use forksan.Waits.{Wait, pending, done, lost, waited, wake, dropped, handle_stop_wait}
use forksan.Server.Counts.{
  polls_of, polls_on, handle_stop_wait-counts, parked-handle_event, move-counts, lost-polls,
}
use forksan.Server.Connection.{
  is_mismatched, Connection, reading, polling, closed_connection, Input, line, end_of_file, moved,
  step, serve, Step, write_body, write_error, poll_for, finish, handle_body, handle_request,
  handle_line,
}

-- A step on a connection that counts for `before` changes the session's count as it changes the polls.
abbrev Balanced : Text → Daemon → ℕ → Step → Type 0
Balanced s d before (d', c, out) = d'.parked s + before ≡ d.parked s + polls_on s c

write_body-counts :
    (s : Text) (d d' : Daemon) (written : Bool) (id : ℕ) (body : ResponseBody)
    → d'.parked ≡ d.parked
    → Balanced s d 0 (write_body written id body d')
unfolding write_body
write_body-counts s d d' true id body e = ap (λ f. f s + 0) e
write_body-counts s d d' false id body e = ap (λ f. f s + 0) e

write_error-counts :
    (s : Text) (d : Daemon) (written : Bool) (id : ℕ) (body : ResponseBody)
    → Balanced s d 0 (write_error written id body d)
unfolding write_error
write_error-counts s d true id body = refl
write_error-counts s d false id body = refl

poll_for-counts :
    (s : Text) (d d' : Daemon) (written : Bool) (id before : ℕ) (w : Wait)
    → d'.parked s + before ≡ d.parked s + polls_of s w
    → Balanced s d before (poll_for written id (d', w))
unfolding poll_for write_body
poll_for-counts s d d' written id before (pending poll phase) e = e
poll_for-counts s d d' true id before (done waited) e = e
poll_for-counts s d d' false id before (done waited) e = e
poll_for-counts s d d' true id before (done (wake payload)) e = e
poll_for-counts s d d' false id before (done (wake payload)) e = e
poll_for-counts s d d' written id before (done dropped) e = e

handle_body-counts :
    (s : Text) (service : Service) (r : Readout) (written : Bool) (id : ℕ) (body : RequestBody)
    (d : Daemon)
    → Balanced s d 0 (handle_body service r written id body d)
unfolding handle_body finish dispatch prune_sessions touch_busy
handle_body-counts s service r written id (stop_wait ev) d =
    let (d', w) = handle_stop_wait service.machine ev r.started d in
    poll_for-counts s d d' written id 0 w
      (let e = handle_stop_wait-counts service.machine ev r.started d s in omega arith)
handle_body-counts s service r written id (event ev) d =
    write_body-counts s d _ written id _
      (parked-handle_event service.machine.outside ev r.handled _)
handle_body-counts s service r written id (hello version) d =
    write_body-counts s d _ written id _ refl
handle_body-counts s service r written id status_request d =
    write_body-counts s d _ written id _ refl
handle_body-counts s service r written id (list_forks project_root cwd) d =
    write_body-counts s d _ written id _ refl
handle_body-counts s service r written id prune_request d =
    write_body-counts s d _ written id _ refl
handle_body-counts s service r written id (shutdown drain) d =
    write_body-counts s d _ written id _ refl

if-Balanced :
    (s : Text) (d : Daemon) (before : ℕ) (c : Bool) (a b : Step)
    → Balanced s d before a
    → Balanced s d before b
    → Balanced s d before (if c then a else b)
if-Balanced s d before true a b p q = p
if-Balanced s d before false a b p q = q

handle_request-counts :
    (s : Text) (service : Service) (r : Readout) (written : Bool) (text : Text) (o : Option Request)
    (d : Daemon)
    → Balanced s d 0 (handle_request service r written text o d)
unfolding handle_request
handle_request-counts s service r written text none d = write_error-counts s d written 0 _
handle_request-counts s service r written text (some req) d =
    if-Balanced s d 0 (is_mismatched req) _ _ (write_error-counts s d written req.id _)
      (handle_body-counts s service r written req.id req.body d)

step-counts :
    (s : Text) (service : Service) (input : Input) (c : Connection) (d : Daemon)
    → ((t : Text) → polls_on t c ≤ d.parked t)
    → Balanced s d (polls_on s c) (step service input c d)
unfolding step handle_line
step-counts s service (line text r written) reading d h =
    if-Balanced s d 0 (is_empty (trim text)) (d, reading, []) _ refl
      (handle_request-counts s service r written text (service.from_str text) d)
step-counts s service end_of_file reading d h = refl
step-counts s service (moved mv written) reading d h = refl
step-counts s service (line text r written) (polling id poll phase) d h = refl
step-counts s service end_of_file (polling id poll phase) d h =
    let w = pending poll phase in
    move-counts service.machine lost w d h s
    ∙ ap (λ n. d.parked s + n) (lost-polls s service.machine w d)
step-counts s service (moved mv written) (polling id poll phase) d h =
    let w = pending poll phase in
    poll_for-counts s d _ written id (polls_of s w) _ (move-counts service.machine mv w d h s)
step-counts s service (line text r written) closed_connection d h = refl
step-counts s service end_of_file closed_connection d h = refl
step-counts s service (moved mv written) closed_connection d h = refl

unfoldable pub polls_among : Text → List Connection → ℕ
polls_among sid [] = 0
polls_among sid (c ∷ cs) = polls_on sid c + polls_among sid cs

serve-counts :
    (service : Service) (i : ℕ) (input : Input) (cs : List Connection) (d : Daemon)
    → ((t : Text) → polls_among t cs ≤ d.parked t)
    → (s : Text)
    → (serve service i input cs d).0.parked s + polls_among s cs
      ≡ d.parked s + polls_among s (serve service i input cs d).1
unfolding serve polls_among
serve-counts service i input [] d h s = refl
serve-counts service zero input (c ∷ cs) d h s =
    let e = step-counts s service input c d (λ t. omega (arith, h t)) in omega arith
serve-counts service (suc i) input (c ∷ cs) d h s =
    let e = serve-counts service i input cs d (λ t. omega (arith, h t)) s in omega arith

-- Each session's count is the number of connections with a poll of it that waits.
abbrev pub IsBalanced : List Connection → Daemon → Type 0
IsBalanced cs d = (s : Text) → d.parked s ≡ polls_among s cs

-- Whatever line, end or move comes on whatever connection, and whether or not the answer can be written,
-- the daemon's count of a session's parked polls stays the number of connections with a poll of that
-- session that waits.
pub serve-IsBalanced :
    (service : Service) (i : ℕ) (input : Input) (cs : List Connection) (d : Daemon)
    → IsBalanced cs d
    → IsBalanced (serve service i input cs d).1 (serve service i input cs d).0
serve-IsBalanced service i input cs d h s =
    let e = serve-counts service i input cs d (λ t. omega (arith, h t)) s in omega (arith, h s)
