-- ===== src/Database/Load/Stored.antt =====
-- What DatabaseLoader::load (server/database/load/load.cpp) makes of the users and private messages that
-- DatabaseSaver::save (server/database/save/save.cpp) saved.
use teams_mirror.Prelude.{
  ℕ, true, false, List, [], ◌∷◌, ◌++◌, ◌≡◌, refl, ◌∙◌, ap, map, All, some, is_empty, if◌then◌else◌,
  Bool-cases, inl, inr, arith,
}
use teams_mirror.Bytes.{Bytes, view}
use teams_mirror.Fields.{copy_buffer, zeroed}
use teams_mirror.Protocol.Limits.{uuid_length, max_name_length, max_body_length}
use teams_mirror.Models.User.{User, logged_in}
use teams_mirror.Models.User
use teams_mirror.Models.Message.{Message}
use teams_mirror.Models.Message
use teams_mirror.Models.Team.{Team}
use teams_mirror.Database.Text.{write_lines, read_lines}
use teams_mirror.Database.Text.Fields.{IsDelimiter}
use teams_mirror.Database.Time.Printed.{IsLongLong, parse_time_value-to_string}
use teams_mirror.Database.Records.{parse_bool_value, two_keys}
use teams_mirror.Database.Records.Stored.{
  accepts, IsStored, each_object-map, All-implies, each_record-read_lines,
}
use teams_mirror.Database.Disk.{SaveFile, Disk, Access, users_file, private_messages_file}
use teams_mirror.Database.Text.{join_escaped_fields}
use teams_mirror.Database.Save.{
  lines_of, user_fields, private_message_fields, serialize_data, lines_for, save,
}
use teams_mirror.Database.Load.{
  load_user, user_format, load_users, load_private_message, load_private_messages, load,
}

-- An array with NULs only behind its string, and one at least.
unfoldable pub IsPadded : ℕ → Bytes → Type 0
IsPadded n b = copy_buffer (zeroed n) (view b) ≡ b

unfoldable pub UserIsSaved : User → Type 0
UserIsSaved user = IsPadded uuid_length user.uuid × IsPadded max_name_length user.name

-- The sessions of a user are not saved, only whether there are any.
unfoldable pub reloaded : User → User
reloaded user = record user { is_logged_in = if logged_in user then 1 else 0 }

load_user-user_fields :
    (user : User) (users : List User)
    → UserIsSaved user
    → load_user (user_fields user) users ≡ users ++ reloaded user ∷ []
unfolding load_user user_fields reloaded UserIsSaved IsPadded parse_bool_value User.make
load_user-user_fields user users (u, n) = elim (Bool-cases (logged_in user)) [
  | inl here ↦ rw (here, u, n) refl
  | inr none_left ↦ rw (none_left, u, n) refl
]

user_fields-IsStored :
    (d : ℕ) (user : User) → UserIsSaved user → IsStored (user_format d) user_fields user
unfolding IsStored accepts user_fields
user_fields-IsStored d user h = (_, _, _, refl, refl)

unfoldable pub MessageIsSaved : Message → Type 0
MessageIsSaved m =
    IsPadded uuid_length m.uuid
    × IsPadded uuid_length m.author_uuid
    × IsPadded uuid_length m.receiver_uuid
    × IsPadded max_body_length m.body
    × IsLongLong m.created_at
    × (is_empty (Message.get_uuid m) ≡ false)
    × (is_empty (Message.get_author_uuid m) ≡ false)

load_private_message-private_message_fields :
    (m : Message) (messages : List Message)
    → MessageIsSaved m
    → load_private_message (private_message_fields m) messages ≡ messages ++ m ∷ []
unfolding load_private_message private_message_fields MessageIsSaved IsPadded Message.make
load_private_message-private_message_fields m messages (u, a, r, b, t, _, _) =
    rw (parse_time_value-to_string m.created_at t, load_private_message, u, a, r, b) refl

private_message_fields-IsStored :
    (d : ℕ) (m : Message) → MessageIsSaved m → IsStored (two_keys d 5) private_message_fields m
unfolding IsStored accepts private_message_fields MessageIsSaved
private_message_fields-IsStored d m h = (_, _, _, refl, ground (arith, h.5, h.6))

map-same : (messages : List Message) → map (λ m. m) messages ≡ messages
map-same [] = refl
map-same (m ∷ messages) = ap (◌∷◌ m) (map-same messages)

-- loadUsers takes back every user that was saved, and their order.
pub load_users-saved :
    (d : ℕ) (users : List User)
    → IsDelimiter d
    → All UserIsSaved users
    → load_users d
        (read_lines
          (write_lines (lines_of (λ user. join_escaped_fields d (user_fields user)) users)))
        []
      ≡ map reloaded users
unfolding load_users
load_users-saved d users ok h =
    each_record-read_lines (user_format d) user_fields load_user users [] ok (
      All-implies UserIsSaved (IsStored (user_format d) user_fields) (user_fields-IsStored d) users
        h)
    ∙ each_object-map UserIsSaved (λ user. load_user (user_fields user)) reloaded
        load_user-user_fields users [] h

pub load_private_messages-saved :
    (d : ℕ) (messages before : List Message)
    → IsDelimiter d
    → All MessageIsSaved messages
    → load_private_messages d
        (read_lines
          (write_lines (lines_of (λ m. join_escaped_fields d (private_message_fields m)) messages)))
        before
      ≡ before ++ messages
unfolding load_private_messages
load_private_messages-saved d messages before ok h =
    each_record-read_lines (two_keys d 5) private_message_fields load_private_message messages
      before ok
      (All-implies MessageIsSaved (IsStored (two_keys d 5) private_message_fields)
        (private_message_fields-IsStored d) messages h)
    ∙ each_object-map MessageIsSaved (λ m. load_private_message (private_message_fields m)) (λ m. m)
        load_private_message-private_message_fields messages before h
    ∙ ap (λ ms. before ++ ms) (map-same messages)

pub save-disk :
    (access : Access) (d : ℕ) (users : List User) (teams : List Team) (messages : List Message)
    (disk : Disk)
    → access.directory ≡ true
    → ((file : SaveFile) → access.writable file ≡ true)
    → (file : SaveFile)
    → (save access d users teams messages disk).1 file
      ≡ some (write_lines (lines_for (serialize_data d users teams messages) file))
unfolding save
save-disk access d users teams messages disk open_ok all_ok file = rw (open_ok, all_ok file) refl

load_readable :
    (d : ℕ) (disk : Disk) (users : List User) (teams : List Team) (messages : List Message)
    (text private : Bytes)
    → disk users_file ≡ some text
    → disk private_messages_file ≡ some private
    → let loaded = load d disk users teams messages in
      (loaded.0 ≡ true)
      × (loaded.1 ≡ load_users d (read_lines text) [])
      × (loaded.3 ≡ load_private_messages d (read_lines private) messages)
unfolding load
load_readable d disk users teams messages text private e f = rw (e, f) (refl, refl, refl)

-- What is loaded after a save to a directory in which every file can be written: the users in their order, each
-- with one session if there was any and with none otherwise, and the private messages in their order behind
-- those that the caller held. The delimiter is no backslash, no line feed and not the letter n or r; the arrays
-- hold NULs only behind their strings; the times fit in a long long; a message has an identifier and an author.
pub users-load :
    (access : Access) (d : ℕ) (users : List User) (teams : List Team) (messages : List Message)
    (disk : Disk) (old_users : List User) (old_teams : List Team) (old_messages : List Message)
    → access.directory ≡ true
    → ((file : SaveFile) → access.writable file ≡ true)
    → IsDelimiter d
    → All UserIsSaved users
    → All MessageIsSaved messages
    → let loaded =
        load d (save access d users teams messages disk).1 old_users old_teams old_messages in
      (loaded.0 ≡ true) × (loaded.1 ≡ map reloaded users) × (loaded.3 ≡ old_messages ++ messages)
unfolding lines_for serialize_data
users-load access d users teams messages disk old_users old_teams old_messages open_ok all_ok ok hu
      hm =
    let saved = save-disk access d users teams messages disk open_ok all_ok in
    let (was, first, last) =
      load_readable d _ old_users old_teams old_messages _ _ (saved users_file)
        (saved private_messages_file) in
    (
      was,
      first ∙ load_users-saved d users ok hu,
      last ∙ load_private_messages-saved d messages old_messages ok hm,
    )
