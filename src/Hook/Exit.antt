-- ===== src/Hook/Exit.antt =====
-- How a hook may end.
use forksan.Prelude.{◌≡◌, ◌∷◌, ◌++◌, [], Option, some, Text, false, Text, Bool}
use forksan.Events.{stop}
use forksan.Protocol.{RequestBody, stop_wait, wake_up}
use forksan.Client.{ok, Wire, Client, request}
use forksan.Hook.{HookKind, stop_wait_hook, HookInput, Host, Run, current, cwd_or, hook_event}

-- The hook's input and its directory, as this host gives them.
pub record IsInput (host : Host) (input : HookInput) (cwd : Text) : Type 0 where
  pub raw : Text
  pub read : host.stdin ≡ some raw
  pub parsed : host.from_str raw ≡ some input
  pub placed : cwd_or input.cwd host.current_dir ≡ some cwd

-- The ways in which a hook of this host ends: it exits with 0 and prints nothing, or it is a Stop hook whose
-- poll, sent over the connection that the host got and handshook, with the event of the host's input, was
-- answered with a wake, which it prints.
pub data Ends (host : Host) : HookKind → Run → Type 0 where
  quietly :
      {kind : HookKind} (sent : Option RequestBody) (spawned : Bool)
      → Ends host kind (sent, record { exit_code = 0; stderr = []; spawned = spawned })
  awake :
      (input : HookInput) (cwd : Text) (wire : Wire) (client : Client) (payload : Text)
      → IsInput host input cwd
      → current host host.connect_or_spawn ≡ some (wire, client)
      → (request wire (stop_wait (hook_event host input cwd stop)) client).1 ≡ ok (wake_up payload)
      → Ends host stop_wait_hook (
        some (stop_wait (hook_event host input cwd stop)),
        record { exit_code = 2; stderr = payload ++ (b'\n' ∷ []); spawned = false },
      )
