-- ===== src/Config/Paths.antt =====
-- config.rs, `Paths`: where the program keeps its files. The environment is a function from names.
use forksan.Prelude.{
  ◌||◌, strip_prefix, is_empty, starts_with, ◌≡◌, refl, true, [], ◌∷◌, ◌++◌, Option, none, some,
  Text, codes, arith, is_empty, starts_with, strip_prefix, ◌||◌, if◌then◌else◌, Bool-cases, inl,
  inr,
}
use mathlib.Core.List.{reverse}
use forksan.FileSystem.{is_absolute, join_path}

abbrev pub Env : Type 0
Env = Text → Option Text

-- The value of a variable, when it is an absolute path.
unfoldable pub absolute_var : Env → Text → Option Text
absolute_var env name = elim (env name) [
  | none ↦ none
  | some dir ↦ if is_absolute dir then some dir else none
]

unfoldable pub autofork_home : Text → Text
autofork_home home = join_path home (codes ".autofork")

home_base : Option Text → Option Text
home_base none = none
home_base (some h) = some (autofork_home h)

-- `Paths::from_env` wraps the same path.
unfoldable pub autofork_home_from_env : Env → Option Text
unfolding absolute_var home_base autofork_home
autofork_home_from_env env = elim (absolute_var env (codes "AUTOFORK_HOME")) [
  | some dir ↦ some dir
  | none ↦ home_base (env (codes "HOME"))
]

pub record Paths : Type 0 where
  pub base : Text

socket_of : Option Text → Option Text → Text → Text
socket_of (some p) runtime base = p
socket_of none (some dir) base = join_path dir (codes "autofork.sock")
socket_of none none base = join_path base (codes "run/daemon.sock")

unfoldable pub socket : Env → Paths → Text
unfolding absolute_var socket_of
socket env paths =
    socket_of (absolute_var env (codes "AUTOFORK_SOCKET"))
      (absolute_var env (codes "XDG_RUNTIME_DIR")) paths.base

unfoldable pub daemon_lock : Paths → Text
daemon_lock paths = join_path paths.base (codes "run/daemon.lock")

unfoldable pub spawn_lock : Paths → Text
spawn_lock paths = join_path paths.base (codes "run/spawn.lock")

unfoldable pub db : Paths → Text
db paths = join_path paths.base (codes "state.db")

unfoldable pub daemon_log : Paths → Text
daemon_log paths = join_path paths.base (codes "logs/daemon.log")

unfoldable pub user_config : Paths → Text
user_config paths = join_path paths.base (codes "config.toml")

-- daemon.rs, `user_forks_root`
unfoldable pub user_forks_root : Paths → Text
user_forks_root paths = join_path paths.base (codes "forks")

absolute_var-is_absolute :
    (env : Env) (name p : Text) → absolute_var env name ≡ some p → is_absolute p ≡ true
unfolding absolute_var
absolute_var-is_absolute env name p h = ground arith

append-is_absolute : (p s : Text) → is_absolute p ≡ true → is_absolute (p ++ s) ≡ true
unfolding is_absolute starts_with strip_prefix
append-is_absolute [] s h = cc
append-is_absolute (c ∷ p) s h = ground arith

-- What is joined to an absolute path is absolute.
join_path-is_absolute :
    (dir p : Text) → is_absolute dir ≡ true → is_absolute (join_path dir p) ≡ true
unfolding join_path
join_path-is_absolute dir p h = elim (Bool-cases (is_absolute p)) [
  | inl e ↦ rw e e
  | inr e ↦ rw e (elim (Bool-cases (is_empty dir || starts_with (reverse dir) (codes "/"))) [
    | inl q ↦ rw q (append-is_absolute dir p h)
    | inr q ↦ rw q (append-is_absolute dir (codes "/" ++ p) h)
  ])
]

socket_of-is_absolute :
    (own runtime : Option Text) (base : Text)
    → ((p : Text) → own ≡ some p → is_absolute p ≡ true)
    → ((p : Text) → runtime ≡ some p → is_absolute p ≡ true)
    → is_absolute base ≡ true
    → is_absolute (socket_of own runtime base) ≡ true
unfolding socket_of
socket_of-is_absolute (some p) runtime base f g h = f p refl
socket_of-is_absolute none (some dir) base f g h = join_path-is_absolute dir _ (g dir refl)
socket_of-is_absolute none none base f g h = join_path-is_absolute base _ h

-- The CLI and the daemon meet at an absolute path whatever the environment holds, as long as the base is
-- absolute: a relative AUTOFORK_SOCKET or XDG_RUNTIME_DIR is passed over.
pub socket-is_absolute :
    (env : Env) (paths : Paths)
    → is_absolute paths.base ≡ true
    → is_absolute (socket env paths) ≡ true
unfolding socket
socket-is_absolute env paths h =
    socket_of-is_absolute _ _ paths.base (absolute_var-is_absolute env (codes "AUTOFORK_SOCKET"))
      (absolute_var-is_absolute env (codes "XDG_RUNTIME_DIR")) h
