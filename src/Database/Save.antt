-- ===== src/Database/Save.antt =====
-- server/database/save/save.cpp
use teams_mirror.Prelude.{Bool, false, not, ◌&&◌, List, [], ◌∷◌, ◌++◌, some, if◌then◌else◌, ℕ}
use teams_mirror.Bytes.{Bytes, view}
use teams_mirror.Models.User.{User, logged_in}
use teams_mirror.Models.User
use teams_mirror.Models.Message.{Message}
use teams_mirror.Models.Message
use teams_mirror.Models.Thread.{Thread}
use teams_mirror.Models.Thread
use teams_mirror.Models.Channel.{Channel}
use teams_mirror.Models.Channel
use teams_mirror.Models.Team.{Team}
use teams_mirror.Models.Team
use teams_mirror.Database.Text.{join_escaped_fields, write_lines}
use teams_mirror.Database.Time.{to_string}
use teams_mirror.Database.Disk.{
  SaveFile, users_file, teams_file, team_subscriptions_file, channels_file, threads_file,
  messages_file, private_messages_file, Disk, Access,
}

pub record SerializedLines : Type 0 where
  pub users : List Bytes
  pub teams : List Bytes
  pub team_subscriptions : List Bytes
  pub channels : List Bytes
  pub threads : List Bytes
  pub messages : List Bytes
  pub private_messages : List Bytes

-- The fields of the objects, in the order of the lines.
unfoldable pub user_fields : User → List Bytes
user_fields user =
    User.get_uuid user ∷ User.get_name user ∷ ((if logged_in user then b'1' else b'0') ∷ []) ∷ []

unfoldable pub private_message_fields : Message → List Bytes
private_message_fields message =
    Message.get_uuid message
    ∷ Message.get_author_uuid message
    ∷ to_string message.created_at
    ∷ Message.get_body message
    ∷ Message.get_receiver_uuid message
    ∷ []

unfoldable pub team_fields : Team → List Bytes
team_fields team = Team.get_uuid team ∷ Team.get_name team ∷ Team.get_description team ∷ []

unfoldable pub subscription_fields : Bytes → Bytes → List Bytes
subscription_fields team_uuid subscribed = team_uuid ∷ view subscribed ∷ []

unfoldable pub channel_fields : Bytes → Channel → List Bytes
channel_fields team_uuid channel =
    team_uuid
    ∷ Channel.get_uuid channel
    ∷ Channel.get_name channel
    ∷ Channel.get_description channel
    ∷ []

unfoldable pub thread_fields : Bytes → Thread → List Bytes
thread_fields channel_uuid thread =
    channel_uuid
    ∷ Thread.get_uuid thread
    ∷ Thread.get_author_uuid thread
    ∷ to_string thread.created_at
    ∷ Thread.get_title thread
    ∷ Thread.get_body thread
    ∷ []

unfoldable pub reply_fields : Bytes → Message → List Bytes
reply_fields thread_uuid message =
    thread_uuid
    ∷ Message.get_uuid message
    ∷ Message.get_author_uuid message
    ∷ to_string message.created_at
    ∷ Message.get_body message
    ∷ []

-- A loop that appends a line for each element.
unfoldable pub lines_of {ℓ} : {A : Type ℓ} → (A → Bytes) → List A → List Bytes
lines_of line [] = []
lines_of line (x ∷ xs) = line x ∷ lines_of line xs

-- A loop that appends the lines of each element's own loop.
unfoldable pub lines_each {ℓ} : {A : Type ℓ} → (A → List Bytes) → List A → List Bytes
lines_each lines [] = []
lines_each lines (x ∷ xs) = lines x ++ lines_each lines xs

module _ (delimiter : ℕ) where
  unfoldable pub reply_lines : Thread → List Bytes
  unfolding lines_of reply_fields
  reply_lines thread =
      lines_of
        (λ message. join_escaped_fields delimiter (reply_fields (Thread.get_uuid thread) message))
        thread.replies

  unfoldable pub thread_lines : Channel → List Bytes
  unfolding lines_of thread_fields
  thread_lines channel =
      lines_of
        (λ thread. join_escaped_fields delimiter (thread_fields (Channel.get_uuid channel) thread))
        channel.threads

  unfoldable pub channel_lines : Team → List Bytes
  unfolding lines_of channel_fields
  channel_lines team =
      lines_of
        (λ channel. join_escaped_fields delimiter (channel_fields (Team.get_uuid team) channel))
        team.channels

  unfoldable pub subscription_lines : Team → List Bytes
  unfolding lines_of subscription_fields
  subscription_lines team =
      lines_of
        (λ stored. join_escaped_fields delimiter (subscription_fields (Team.get_uuid team) stored))
        team.subscribed_user_uuids

  unfoldable pub serialize_data : List User → List Team → List Message → SerializedLines
  unfolding lines_of lines_each user_fields team_fields private_message_fields reply_lines
      thread_lines channel_lines subscription_lines
  serialize_data users teams messages = record {
    users = lines_of (λ user. join_escaped_fields delimiter (user_fields user)) users;
    teams = lines_of (λ team. join_escaped_fields delimiter (team_fields team)) teams;
    team_subscriptions = lines_each subscription_lines teams;
    channels = lines_each channel_lines teams;
    threads = lines_each (λ team. lines_each thread_lines team.channels) teams;
    messages =
        lines_each
          (λ team. lines_each (λ channel. lines_each reply_lines channel.threads) team.channels)
          teams;
    private_messages =
        lines_of (λ message. join_escaped_fields delimiter (private_message_fields message))
          messages;
  }

-- The lines of each file: outputFiles of DatabaseSaver::save.
unfoldable pub lines_for : SerializedLines → SaveFile → List Bytes
lines_for s users_file = s.users
lines_for s teams_file = s.teams
lines_for s team_subscriptions_file = s.team_subscriptions
lines_for s channels_file = s.channels
lines_for s threads_file = s.threads
lines_for s messages_file = s.messages
lines_for s private_messages_file = s.private_messages

-- DatabaseSaver::save: whether all was saved, and the files afterwards. A file that cannot be written stays as
-- it was.
unfoldable pub save : Access → ℕ → List User → List Team → List Message → Disk → Bool × Disk
unfolding serialize_data lines_for
save access delimiter users teams messages disk = if not access.directory then (false, disk) else (
  access.writable users_file
      && access.writable teams_file
      && access.writable team_subscriptions_file
      && access.writable channels_file
      && access.writable threads_file
      && access.writable messages_file
      && access.writable private_messages_file,
  λ file.
      if access.writable file
      then some (write_lines (lines_for (serialize_data delimiter users teams messages) file))
      else disk file,
)
