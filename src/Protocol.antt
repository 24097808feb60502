-- ===== src/Protocol.antt =====
-- crates/autofork-core/src/protocol.rs: the frames between the command line and the daemon. Their JSON is
-- serde's, so `to_string` is an argument.
use mathlib.Core.Option
use forksan.Prelude.{ℕ, Bool, List, [], ◌∷◌, ◌++◌, Option, Text}
use forksan.Events.{Event}

-- crates/autofork-core/src/lib.rs, `PROTO_VERSION`
abbrev pub proto_version : ℕ
proto_version = 1

pub data RequestBody : Type 0 where
  hello : Text → RequestBody
  event : Event → RequestBody
  stop_wait : Event → RequestBody
  status_request : RequestBody
  list_forks : Text → Text → RequestBody
  prune_request : RequestBody
  shutdown : Bool → RequestBody

pub record Request : Type 0 where
  pub proto : ℕ
  pub id : ℕ
  pub body : RequestBody

pub record SessionInfo : Type 0 where
  pub session_id : Text
  pub project_root : Text
  pub status : Text
  pub last_activity : ℕ
  pub prompt_tokens : Option ℕ
  pub stale : Bool

pub record RunInfo : Type 0 where
  pub fork : Text
  pub trigger : Text
  pub session_id : Text
  pub state : Text
  pub started_at : ℕ

pub record ForkInfo : Type 0 where
  pub name : Text
  pub path : Text
  pub description : Option Text
  pub triggers : List Text
  pub throttle_secs : Option ℕ
  pub after : List Text
  pub overlap : Bool
  pub tags : List Text
  pub warnings : List Text

pub record StatusInfo : Type 0 where
  pub version : Text
  pub daemon_proto : ℕ
  pub pid : ℕ
  pub sessions : List SessionInfo
  pub recent_runs : List RunInfo

pub data ErrorCode : Type 0 where
  proto_mismatch bad_request not_found internal : ErrorCode

pub data ResponseBody : Type 0 where
  ack : ResponseBody
  hello_info : Text → ResponseBody
  wake_up : Text → ResponseBody
  stopped_waiting : ResponseBody
  status_info : StatusInfo → ResponseBody
  fork_list : List ForkInfo → ResponseBody
  pruned : List SessionInfo → ResponseBody
  failed : ErrorCode → Text → ResponseBody

pub record Response : Type 0 where
  pub proto : ℕ
  pub id : ℕ
  pub body : ResponseBody

-- One line per frame.
unfoldable pub encode : {A : Type 0} → (A → Option Text) → A → Option Text
encode to_string frame = Option.map (λ s. s ++ (b'\n' ∷ [])) (to_string frame)
