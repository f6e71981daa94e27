-- ===== src/Examples/Persistence.antt =====
-- Saved data on concrete users and messages.
use teams_mirror.Prelude.{All, ◌≡◌, refl, true, none, List, [], ◌∷◌, arith, map, replicate}
use teams_mirror.Prelude.Int.{pos}
use teams_mirror.Bytes.{Bytes, view, copy_padded_string}
use teams_mirror.Fields.{copy_buffer}
use teams_mirror.Models.User.{User}
use teams_mirror.Models.Message.{Message}
use teams_mirror.Database.Text.{join_escaped_fields, split_escaped_line}
use teams_mirror.Database.Text.Fields.{IsDelimiter, split_escaped_line-join_escaped_fields}
use teams_mirror.Database.Time.Printed.{IsLongLong}
use teams_mirror.Database.Disk.{Disk, Access}
use teams_mirror.Database.Save.{save}
use teams_mirror.Database.Load.{load}
use teams_mirror.Database.Load.Stored.{UserIsSaved, MessageIsSaved, IsPadded, reloaded}
use teams_mirror.Database.Load.Shapes.{team_entries, channel_entries, channel_entries_of}
use teams_mirror.Database.Load.Entries.{
  thread_entries, entries_of_channels, entries_of_threads, ThreadsDistinct,
}
use teams_mirror.Database.Load.Teams.{TeamIsPadded, TeamsDistinct}
use teams_mirror.Database.Load.Channels.{ChannelIsPadded, ChannelsDistinct}
use teams_mirror.Database.Load.Threads.{ThreadIsPadded}
use teams_mirror.Database.Load.Replies.{ReplyIsPadded}
use teams_mirror.Database.Load.Saved.{
  SubscriptionIsSaved, ReplyIsSaved, ThreadIsSaved, ChannelIsSaved, TeamIsSaved, AllDistinct,
}
use teams_mirror.Database.Load.Whole.{load-save}
use teams_mirror.Models.Thread.{Thread}
use teams_mirror.Models.Channel.{Channel}
use teams_mirror.Models.Team.{Team}
use teams_mirror.Map.{contains}
use teams_mirror.Manager.Rounds.{World}
use teams_mirror.Manager.Loop.{started, shut_down, logout_events}
use teams_mirror.Manager.Restart.{logged_out, started-shut_down}
use teams_mirror.Examples.World.{
  alice_user, bob_user, stored, uuid_of, alice, bob, crew_team, world,
}

-- A field with the delimiter, a backslash and a line feed in it.
abbrev odd_field : Bytes
odd_field = b'|' ∷ b'\\' ∷ 10 ∷ []

bar-IsDelimiter : IsDelimiter b'|'
unfolding IsDelimiter
bar-IsDelimiter = (omega arith, omega arith, omega arith, omega arith)

split_escaped_line-join_escaped_fields_example :
    split_escaped_line b'|' (join_escaped_fields b'|' (odd_field ∷ [] ∷ [])) ≡ odd_field ∷ [] ∷ []
split_escaped_line-join_escaped_fields_example =
    split_escaped_line-join_escaped_fields b'|' bar-IsDelimiter odd_field ([] ∷ [])

abbrev open_access : Access
open_access = record { directory = true; writable = λ file. true }

abbrev empty_disk : Disk
empty_disk = λ file. none

abbrev both : List User
both = alice_user ∷ bob_user ∷ []

abbrev greeting : Message
greeting = record {
  uuid = stored bob;
  author_uuid = stored alice;
  receiver_uuid = stored bob;
  created_at = pos 12;
  body = b'h' ∷ b'i' ∷ replicate 510 0;
}

both-UserIsSaved : All UserIsSaved both
unfolding UserIsSaved IsPadded copy_buffer copy_padded_string view
both-UserIsSaved = ((refl, refl), ((refl, refl), tt))

greeting-MessageIsSaved : All MessageIsSaved (greeting ∷ [])
unfolding MessageIsSaved IsPadded copy_buffer copy_padded_string view IsLongLong
greeting-MessageIsSaved = ((refl, refl, refl, refl, omega arith, refl, refl), tt)

abbrev reply : Message
reply = record {
  uuid = stored (uuid_of b'4');
  author_uuid = stored alice;
  receiver_uuid = replicate 37 0;
  created_at = pos 14;
  body = b'|' ∷ 10 ∷ replicate 510 0;
}

abbrev topic : Thread
topic = record {
  uuid = stored (uuid_of b'3');
  author_uuid = stored bob;
  created_at = pos 13;
  title = b't' ∷ replicate 31 0;
  body = b'?' ∷ replicate 511 0;
  replies = reply ∷ [];
}

abbrev hall : Channel
hall = record {
  uuid = stored (uuid_of b'2');
  name = b'h' ∷ replicate 31 0;
  description = replicate 255 0;
  threads = topic ∷ [];
}

-- A team with a channel, a thread and a reply.
abbrev talking_team : Team
talking_team = record crew_team { channels = hall ∷ [] }

reply-ReplyIsSaved : ReplyIsSaved reply
unfolding ReplyIsPadded IsPadded copy_buffer copy_padded_string view IsLongLong
reply-ReplyIsSaved = record { padded = (refl, refl, refl, refl, omega arith); named = refl }

topic-ThreadIsSaved : ThreadIsSaved topic
unfolding ThreadIsPadded IsPadded copy_buffer copy_padded_string view IsLongLong
topic-ThreadIsSaved = record {
  padded = (refl, refl, refl, refl, omega arith);
  named = refl;
  replies = (reply-ReplyIsSaved, tt);
}

hall-ChannelIsSaved : ChannelIsSaved hall
unfolding ChannelIsPadded IsPadded copy_buffer copy_padded_string view
hall-ChannelIsSaved = record {
  padded = (refl, refl, refl);
  named = refl;
  threads = (topic-ThreadIsSaved, tt);
}

bob-SubscriptionIsSaved : SubscriptionIsSaved (stored bob)
unfolding IsPadded copy_buffer copy_padded_string view
bob-SubscriptionIsSaved = record { padded = refl; named = refl }

talking_team-TeamIsSaved : TeamIsSaved talking_team
unfolding TeamIsPadded IsPadded copy_buffer copy_padded_string view
talking_team-TeamIsSaved = record {
  padded = (refl, refl, refl);
  named = refl;
  subscriptions = (bob-SubscriptionIsSaved, tt);
  channels = (hall-ChannelIsSaved, tt);
}

talking_team-AllDistinct : AllDistinct (talking_team ∷ [])
unfolding TeamsDistinct ChannelsDistinct ThreadsDistinct team_entries channel_entries
    channel_entries_of thread_entries entries_of_channels entries_of_threads contains
talking_team-AllDistinct = record {
  teams_once = (refl, tt);
  channels_once = (refl, tt);
  threads_once = (refl, tt);
}

load-save_example :
    let loaded =
      load b'|'
        (save open_access b'|' both (talking_team ∷ []) (greeting ∷ []) empty_disk).1
        []
        []
        [] in
    (loaded.0 ≡ true)
    × (loaded.1 ≡ map reloaded both)
    × (loaded.2 ≡ talking_team ∷ [])
    × (loaded.3 ≡ greeting ∷ [])
load-save_example =
    load-save open_access b'|' both (talking_team ∷ []) (greeting ∷ []) empty_disk [] [] [] refl
      (λ file. refl) bar-IsDelimiter both-UserIsSaved (talking_team-TeamIsSaved, tt)
      talking_team-AllDistinct greeting-MessageIsSaved

abbrev ending : World
ending = record {
  server = record (world []) { teams = talking_team ∷ []; messages = greeting ∷ [] };
  client_sockets = (4, 4) ∷ [];
}

abbrev saved_disk : Disk
saved_disk = (save open_access b'|' both (talking_team ∷ []) (greeting ∷ []) empty_disk).1

started-shut_down_example :
    let loaded = load b'|' saved_disk [] [] [] in
    let next = (started loaded.1 loaded.2 loaded.3).server in
    (true ≡ true)
    × (loaded.0 ≡ true)
    × (next.users ≡ map logged_out both)
    × (next.teams ≡ talking_team ∷ [])
    × (next.messages ≡ greeting ∷ [])
unfolding shut_down
started-shut_down_example =
    started-shut_down open_access b'|' empty_disk saved_disk ending true
      (logout_events ending.server.authenticated_users_by_fd) refl (λ file. refl) bar-IsDelimiter
      both-UserIsSaved (talking_team-TeamIsSaved, tt) talking_team-AllDistinct
      greeting-MessageIsSaved refl
