-- ===== src/Launch.antt =====
-- server/main.cpp: the arguments of the server.
pub mod Ports
use teams_mirror.Prelude.{
  ℕ, ◌==◌, ◌||◌, Option, none, some, List, [], ◌∷◌, if◌then◌else◌, ltb, same, is_empty,
}
use teams_mirror.Bytes.{Bytes}
use teams_mirror.Database.Time.{parse_number}

-- A number that is a port.
unfoldable pub port_of : Option ℕ → Option ℕ
port_of none = none
port_of (some n) = if n == 0 || ltb 65535 n then none else some n

-- parsePort; std::from_chars takes the digits of an unsigned number, with no sign or space, and all must be taken.
unfoldable pub parse_port : Bytes → Option ℕ
unfolding parse_number port_of
parse_port arg = if is_empty arg then none else port_of (parse_number arg)

-- What `run` does about its arguments: it prints the usage and succeeds or fails, or it starts the server at a port.
pub data Launch : Type 0 where
  helped : Launch
  refused : Launch
  launched : ℕ → Launch

abbrev pub help_option : Bytes
help_option = b'-' ∷ b'-' ∷ b'h' ∷ b'e' ∷ b'l' ∷ b'p' ∷ []

abbrev pub launch_at : Option ℕ → Launch
launch_at none = refused
launch_at (some port) = launched port

-- The arguments behind the name of the program.
unfoldable pub run : List Bytes → Launch
unfolding parse_port same
run [] = refused
run (arg ∷ []) = if same arg help_option then helped else launch_at (parse_port arg)
run (arg ∷ other ∷ args) = refused
