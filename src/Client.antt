-- ===== src/Client.antt =====
-- crates/autofork/src/client.rs: a request over the socket, and whether the daemon is outdated.
pub mod Order
pub mod Tests
use forksan.Prelude.{
  ℕ, ◌+◌, Bool, true, false, List, [], ◌∷◌, ◌++◌, Option, none, some, Text, codes, trim, split,
  is_digit, parse_u64, ltb, ◌==◌, nat_eq, ◌&&◌, ◌||◌, if◌then◌else◌,
}
use forksan.Protocol.{
  proto_version, Request, RequestBody, hello, shutdown, ResponseBody, hello_info, failed, Response,
  encode,
}

pub data ClientError : Type 0 where
  not_running io : ClientError
  protocol : Text → ClientError

pub record Client : Type 0 where
  pub next_id : ℕ

-- `connect`
abbrev pub connected : Client
connected = record { next_id = 1 }

-- What a connected client takes from outside: serde_json's two directions with the messages of their
-- errors, and the line that comes back for the one that is written. There is none if the socket fails,
-- and an empty one if the connection is closed.
pub record Wire : Type 0 where
  pub to_string : Request → Option Text
  pub to_string_error : Request → Text
  pub from_str : Text → Option Response
  pub from_str_error : Text → Text
  pub exchange : Text → Option Text

pub data Reply : Type 0 where
  ok : ResponseBody → Reply
  err : ClientError → Reply

body_or : Text → Option Response → Reply
body_or message none = err (protocol message)
body_or message (some resp) = ok resp.body

read_reply : Wire → Option Text → Reply
unfolding body_or
read_reply wire none = err io
read_reply wire (some []) = err (protocol (codes "connection closed"))
read_reply wire (some (c ∷ line)) =
    body_or (wire.from_str_error (trim (c ∷ line))) (wire.from_str (trim (c ∷ line)))

write_request : Wire → Request → Option Text → Reply
unfolding read_reply
write_request wire req none = err (protocol (wire.to_string_error req))
write_request wire req (some line) = read_reply wire (wire.exchange line)

unfoldable pub request : Wire → RequestBody → Client → Client × Reply
unfolding write_request encode
request wire body client =
    let req : Request = record { proto = proto_version; id = client.next_id; body = body } in
    (record { next_id = client.next_id + 1 }, write_request wire req (encode wire.to_string req))

-- The parts of a version that are compared: the digits that each of the first three pieces starts with.
unfoldable pub leading_digits : Text → Text
leading_digits [] = []
leading_digits (c ∷ s) = let rest = leading_digits s in if is_digit c then c ∷ rest else []

abbrev pub or_zero : Option ℕ → ℕ
or_zero none = 0
or_zero (some n) = n

unfoldable pub part : Text → ℕ
part piece = or_zero (parse_u64 (leading_digits piece))

pub record Version : Type 0 where
  pub major : ℕ
  pub minor : ℕ
  pub patch : ℕ

parts_of : List Text → Version
unfolding part
parts_of [] = record { major = 0; minor = 0; patch = 0 }
parts_of (x ∷ []) = record { major = part x; minor = 0; patch = 0 }
parts_of (x ∷ y ∷ []) = record { major = part x; minor = part y; patch = 0 }
parts_of (x ∷ y ∷ z ∷ rest) = record { major = part x; minor = part y; patch = part z }

-- The closure `parse` of `semver_lt`.
unfoldable pub parse_version : Text → Version
unfolding parts_of
parse_version s = parts_of (split b'.' (trim s))

-- The order of arrays of three.
unfoldable pub version_lt : Version → Version → Bool
version_lt a b =
    ltb a.major b.major
    || (a.major == b.major && (ltb a.minor b.minor || (a.minor == b.minor && ltb a.patch b.patch)))

unfoldable pub semver_lt : Text → Text → Bool
semver_lt a b = version_lt (parse_version a) (parse_version b)

unfoldable pub is_outdated : Text → Reply → Bool
is_outdated mine (ok (hello_info version)) = semver_lt version mine
is_outdated mine (ok (failed code message)) = true
is_outdated mine (ok body) = false
is_outdated mine (err e) = true

-- A daemon that is outdated is asked to retire. What follows, the wait for its lock and the start of the
-- current one, gives a new connection or none.
unfoldable pub ensure_current_version :
    Text → Option (Wire × Client) → Wire → Client → Option (Wire × Client)
unfolding is_outdated
ensure_current_version mine respawned wire client =
    let (client', reply) = request wire (hello mine) client in
    if is_outdated mine reply then respawned else some (wire, client')
