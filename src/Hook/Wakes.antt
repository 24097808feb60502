-- ===== src/Hook/Wakes.antt =====
-- A wake on its way back: the payload that the daemon prints is the session's next prompt.
use forksan.Prelude.{
  sym, subst, ◌≡◌, refl, ap, ◌∙◌, true, false, List, ◌∷◌, some, Text, contains_text,
}
use forksan.Store.{list_pending_deps}
use forksan.Wake.{Ids, DueFork, HeldFork, build_wake_payload, build_release_payload, wake_marker}
use forksan.Wake.Continuation.{build_wake_payload-wake_marker, build_release_payload-wake_marker}
use forksan.Planner.{Daemon}
use forksan.Events.{Event, Outside, Clock, prompt_submit, classify, is_notification, handle_event}
use forksan.Events.Session.{pause_of, or_first, next_of}
use forksan.Events.Pause.{handle_event-prompt_submit, held_after}
use forksan.Hook.{Host, HookInput, hook_event, sniff}

-- The event that the hook makes of a prompt.
abbrev pub prompted : Host → HookInput → Text → Text → Event
prompted host input cwd p = sniff (some p) (hook_event host input cwd prompt_submit)

-- What a continuation leaves as it is.
pub record IsKept (d : Daemon) (session_id : Text) (d' : Daemon) : Type 0 where
  pub pause :
      pause_of session_id d'.store ≡ some (next_of false (or_first (pause_of session_id d.store)))
  pub held : list_pending_deps session_id d'.store ≡ list_pending_deps session_id d.store

marked : Host → HookInput → Text → Event
marked host input cwd = record (hook_event host input cwd prompt_submit) { waking = some false }

prompted-marked :
    (host : Host) (input : HookInput) (cwd p : Text)
    → contains_text p wake_marker ≡ true
    → prompted host input cwd p ≡ marked host input cwd
unfolding sniff marked
prompted-marked host input cwd p e = rw e refl

classify-marked :
    (host : Host) (input : HookInput) (cwd : Text) (outside : Outside) (clock : Clock) (d : Daemon)
    → (classify outside (marked host input cwd) clock d).1 ≡ false
unfolding classify marked hook_event is_notification
classify-marked host input cwd outside clock d = refl

marked-IsKept :
    (host : Host) (input : HookInput) (cwd : Text) (outside : Outside) (clock : Clock) (d : Daemon)
    → IsKept d input.session_id (handle_event outside (marked host input cwd) clock d)
unfolding marked hook_event
marked-IsKept host input cwd outside clock d =
    let ev = marked host input cwd in
    let (p, q, r, s) = handle_event-prompt_submit outside ev clock d refl in
    let w = classify-marked host input cwd outside clock d in
    record {
      pause = p ∙ ap (λ b. some (next_of b (or_first (pause_of input.session_id d.store)))) w;
      held = q ∙ ap (λ b. held_after b (list_pending_deps input.session_id d.store)) w;
    }

-- A wake never begins a new pause: when the payload that was issued, or the one of a release, comes back
-- as the session's prompt, the hook reports it so that the daemon keeps the pause's epoch and baseline and
-- the held dependents, whatever the forks' names and paths are and however long ago the wake was.
pub wake-IsKept :
    (host : Host) (input : HookInput) (cwd : Text) (outside : Outside) (clock : Clock) (d : Daemon)
    (ids : Ids) (f : DueFork) (fs : List DueFork) (held : List HeldFork)
    → IsKept d input.session_id (
        handle_event outside
          (prompted host input cwd (build_wake_payload ids (f ∷ fs) held))
          clock
          d)
      × IsKept d input.session_id (
          handle_event outside
            (prompted host input cwd (build_release_payload ids (f ∷ fs)))
            clock
            d)
wake-IsKept host input cwd outside clock d ids f fs held =
    let kept = marked-IsKept host input cwd outside clock d in
    let P : Event → Type 0 = λ ev. IsKept d input.session_id (handle_event outside ev clock d) in
    (
      subst P
          (sym (prompted-marked host input cwd _ (build_wake_payload-wake_marker ids f fs held)))
          kept,
      subst P (sym (prompted-marked host input cwd _ (build_release_payload-wake_marker ids f fs)))
          kept,
    )
