-- ===== src/Database/Load.antt =====
-- DatabaseLoader::load, loadUsers and loadPrivateMessages of server/database/load/load.cpp.
pub mod Stored
pub mod Shapes
pub mod Teams
pub mod Channels
pub mod Entries
pub mod Threads
pub mod ThreadLoops
pub mod Replies
pub mod ReplyLoops
pub mod Materialized
pub mod Saved
pub mod Accepted
pub mod Whole
use teams_mirror.Prelude.{
  ℕ, Bool, true, false, not, ◌||◌, Option, none, some, List, [], ◌∷◌, ◌++◌, if◌then◌else◌, bytes_eq,
}
use teams_mirror.Bytes.{Bytes}
use teams_mirror.Models.User.{User}
use teams_mirror.Models.User
use teams_mirror.Models.Message.{Message}
use teams_mirror.Models.Message
use teams_mirror.Models.Team.{Team}
use teams_mirror.Models.Team
use teams_mirror.Database.Text.{read_lines}
use teams_mirror.Database.Time.{parse_time_value}
use teams_mirror.Database.Disk.{
  users_file, teams_file, team_subscriptions_file, channels_file, threads_file, messages_file,
  private_messages_file, Disk,
}
use teams_mirror.Database.Records.{RecordFormat, field, parse_bool_value, each_record, two_keys}
use teams_mirror.Database.Loading.{
  Loading, no_teams, load_teams, load_team_subscriptions, load_channels, load_threads,
  load_messages,
}
use teams_mirror.Database.Materialize.{materialize_teams}

unfoldable pub load_user : List Bytes → List User → List User
unfolding parse_bool_value
load_user fields users =
    users ++ User.make (field fields 0) (field fields 1) (parse_bool_value (field fields 2)) ∷ []

abbrev pub user_format : ℕ → RecordFormat
user_format d = record {
  delimiter = d;
  expected_field_count = 3;
  require_first_field = false;
  require_second_field = false;
}

unfoldable pub load_users : ℕ → List Bytes → List User → List User
unfolding each_record load_user
load_users delimiter lines users = each_record (user_format delimiter) load_user lines users

unfoldable pub load_private_message : List Bytes → List Message → List Message
unfolding parse_time_value
load_private_message fields messages = elim (parse_time_value (field fields 2)) [
  | none ↦ messages
  | some created_at ↦
      messages
      ++ Message.make (field fields 0) (field fields 1) created_at (field fields 3) (field fields 4)
        ∷ []
]

unfoldable pub load_private_messages : ℕ → List Bytes → List Message → List Message
unfolding each_record load_private_message
load_private_messages delimiter lines messages =
    each_record (two_keys delimiter 5) load_private_message lines messages

-- readTextFile leaves the lines empty where the file cannot be read.
abbrev pub file_lines : Option Bytes → List Bytes
file_lines none = []
file_lines (some text) = read_lines text

abbrev pub was_read : Option Bytes → Bool
was_read none = false
was_read (some text) = true

unfoldable pub load_objects : ℕ → Disk → Loading
unfolding load_teams load_team_subscriptions load_channels load_threads load_messages
load_objects d disk = load_messages d (file_lines (disk messages_file)) (
    load_threads d (file_lines (disk threads_file)) (
      load_channels d (file_lines (disk channels_file)) (
        load_team_subscriptions d (file_lines (disk team_subscriptions_file))
          (load_teams d (file_lines (disk teams_file)) no_teams))))

-- DatabaseLoader::load, with the vectors of the caller: whether something was loaded, and the vectors afterwards.
-- The users and the teams are cleared first, the messages are not.
unfoldable pub load :
    ℕ → Disk → List User → List Team → List Message → Bool × List User × List Team × List Message
unfolding load_objects load_users load_private_messages materialize_teams
load d disk users teams messages =
    if not (
      was_read (disk users_file)
      || was_read (disk teams_file)
      || was_read (disk team_subscriptions_file)
      || was_read (disk channels_file)
      || was_read (disk threads_file)
      || was_read (disk messages_file)
      || was_read (disk private_messages_file))
    then (false, [], [], messages)
    else (
      true,
      load_users d (file_lines (disk users_file)) [],
      materialize_teams (load_objects d disk).loaded_teams [],
      load_private_messages d (file_lines (disk private_messages_file)) messages,
    )
