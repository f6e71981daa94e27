-- ===== src/Database/Load/Whole.antt =====
-- What DatabaseLoader::load (server/database/load/load.cpp) makes of all that DatabaseSaver::save
-- (server/database/save/save.cpp) saved.
use teams_mirror.Prelude.{ℕ, true, List, [], ◌++◌, ◌≡◌, refl, ◌∙◌, ap, map, All, some}
use teams_mirror.Bytes.{Bytes}
use teams_mirror.Models.User.{User}
use teams_mirror.Models.Message.{Message}
use teams_mirror.Models.Thread.{Thread}
use teams_mirror.Models.Thread
use teams_mirror.Models.Channel.{Channel}
use teams_mirror.Models.Channel
use teams_mirror.Models.Team.{Team}
use teams_mirror.Models.Team
use teams_mirror.Database.Text.{join_escaped_fields, write_lines, read_lines}
use teams_mirror.Database.Text.Fields.{IsDelimiter}
use teams_mirror.Database.Records.{two_keys}
use teams_mirror.Database.Records.Stored.{IsStored, All-implies, each_record-read_lines}
use teams_mirror.Database.Records.Nested.{lines_each-gather, each_object-gather, each_record-parts}
use teams_mirror.Database.Disk.{
  SaveFile, Disk, Access, users_file, teams_file, team_subscriptions_file, channels_file,
  threads_file, messages_file,
}
use teams_mirror.Database.Save.{
  lines_of, lines_each, team_fields, subscription_fields, channel_fields, thread_fields,
  reply_fields, subscription_lines, channel_lines, thread_lines, reply_lines, serialize_data,
  lines_for, save,
}
use teams_mirror.Database.Loading.{
  Loading, no_teams, load_team, load_subscription, load_channel, load_thread, load_message,
  team_format, load_teams, load_team_subscriptions, load_channels, load_threads, load_messages,
}
use teams_mirror.Database.Materialize.{materialize_teams}
use teams_mirror.Database.Load.{load, load_objects}
use teams_mirror.Database.Load.Stored.{UserIsSaved, MessageIsSaved, reloaded, save-disk, users-load}
use teams_mirror.Database.Load.Shapes.{team_entries}
use teams_mirror.Database.Load.Teams.{
  TeamIsPadded, teams_loaded, load_teams-team_fields, subscribe_teams, subscribed,
}
use teams_mirror.Database.Load.Channels.{load_channels_of_teams, with_channels}
use teams_mirror.Database.Load.Entries.{thread_entries}
use teams_mirror.Database.Load.Threads.{with_threads}
use teams_mirror.Database.Load.ThreadLoops.{indexed, thread_all, thread_teams}
use teams_mirror.Database.Load.Replies.{full_team}
use teams_mirror.Database.Load.ReplyLoops.{reply_thread, reply_channel, reply_teams}
use teams_mirror.Database.Load.Materialized.{materialize_teams-full}
use teams_mirror.Database.Load.Saved.{
  SubscriptionIsSaved, ReplyIsSaved, ThreadIsSaved, ChannelIsSaved, TeamIsSaved, AllDistinct,
}
use teams_mirror.Database.Load.Accepted.{
  all_channels, all_threads, all_channels_saved, all_threads_saved, team_fields-IsStored,
  subscription-IsStored, channel-IsStored, thread-IsStored, reply-IsStored, teams-ChannelsPadded,
  teams-ThreadsPadded, teams-TeamRepliesPadded, subscriptions-IsPadded,
}

teams_readable :
    (d : ℕ) (disk : Disk) (users : List User) (teams : List Team) (messages : List Message)
    (text : Bytes)
    → disk users_file ≡ some text
    → (load d disk users teams messages).2 ≡ materialize_teams (load_objects d disk).loaded_teams []
unfolding load
teams_readable d disk users teams messages text e = rw (e) refl

module _ (d : ℕ) (ok : IsDelimiter d) (teams : List Team) (saved : All TeamIsSaved teams)
    (once : AllDistinct teams) where
  teams_step :
      load_teams d
        (read_lines (write_lines (lines_of (λ t. join_escaped_fields d (team_fields t)) teams)))
        no_teams
      ≡ teams_loaded teams
  unfolding load_teams
  teams_step =
      each_record-read_lines (team_format d) team_fields load_team teams no_teams ok (
        All-implies TeamIsSaved (IsStored (team_format d) team_fields) (team_fields-IsStored d)
          teams saved)
      ∙ load_teams-team_fields teams once.teams_once
          (All-implies TeamIsSaved TeamIsPadded (λ t h. h.padded) teams saved)

  subscriptions_step :
      load_team_subscriptions d
        (read_lines (write_lines (lines_each (subscription_lines d) teams)))
        (teams_loaded teams)
      ≡ record no_teams { loaded_teams = map subscribed teams; team_indexes = team_entries 0 teams }
  unfolding load_team_subscriptions subscription_lines
  subscriptions_step =
      each_record-parts (λ (t : Team). t.subscribed_user_uuids) (two_keys d 2)
        (λ t. subscription_fields (Team.get_uuid t)) load_subscription teams (teams_loaded teams) ok
        (All-implies TeamIsSaved
          (λ t.
            All (IsStored (two_keys d 2) (subscription_fields (Team.get_uuid t)))
              t.subscribed_user_uuids)
          (λ t h.
            All-implies SubscriptionIsSaved
              (IsStored (two_keys d 2) (subscription_fields (Team.get_uuid t)))
              (subscription-IsStored d t h) t.subscribed_user_uuids h.subscriptions)
          teams saved)
      ∙ subscribe_teams teams once.teams_once

  channels_step :
      load_channels d
        (read_lines (write_lines (lines_each (channel_lines d) teams)))
        (record no_teams {
          loaded_teams = map subscribed teams;
          team_indexes = team_entries 0 teams;
        })
      ≡ indexed teams (map with_channels teams) []
  unfolding load_channels channel_lines
  channels_step =
      each_record-parts (λ (t : Team). t.channels) (two_keys d 4)
        (λ t. channel_fields (Team.get_uuid t)) load_channel teams
        (record no_teams {
          loaded_teams = map subscribed teams;
          team_indexes = team_entries 0 teams;
        })
        ok
        (All-implies TeamIsSaved
          (λ t. All (IsStored (two_keys d 4) (channel_fields (Team.get_uuid t))) t.channels)
          (λ t h.
            All-implies ChannelIsSaved (IsStored (two_keys d 4) (channel_fields (Team.get_uuid t)))
              (channel-IsStored d t h) t.channels h.channels)
          teams saved)
      ∙ load_channels_of_teams teams once.teams_once once.channels_once
          (teams-ChannelsPadded teams saved)

  threads_step :
      load_threads d
        (read_lines
          (write_lines (lines_each (λ team. lines_each (thread_lines d) team.channels) teams)))
        (indexed teams (map with_channels teams) [])
      ≡ indexed teams (map with_threads teams) (thread_entries 0 teams)
  unfolding load_threads thread_lines
  threads_step =
      let start = indexed teams (map with_channels teams) [] in
      ap (λ lines. load_threads d (read_lines (write_lines lines)) start)
        (lines_each-gather (λ (t : Team). t.channels) (thread_lines d) teams)
      ∙ each_record-parts (λ (c : Channel). c.threads) (two_keys d 6)
          (λ c. thread_fields (Channel.get_uuid c)) load_thread (all_channels teams) start ok
          (All-implies ChannelIsSaved
            (λ c. All (IsStored (two_keys d 6) (thread_fields (Channel.get_uuid c))) c.threads)
            (λ c h.
              All-implies ThreadIsSaved
                (IsStored (two_keys d 6) (thread_fields (Channel.get_uuid c)))
                (thread-IsStored d c h) c.threads h.threads)
            (all_channels teams) (all_channels_saved teams saved))
      ∙ each_object-gather (λ (t : Team). t.channels) thread_all teams start
      ∙ thread_teams teams once.channels_once once.threads_once (teams-ThreadsPadded teams saved)

  replies_step :
      load_messages d
        (read_lines (
          write_lines (
            lines_each
              (λ team.
                lines_each (λ channel. lines_each (reply_lines d) channel.threads) team.channels)
              teams)))
        (indexed teams (map with_threads teams) (thread_entries 0 teams))
      ≡ indexed teams (map full_team teams) (thread_entries 0 teams)
  unfolding load_messages reply_lines
  replies_step =
      let start = indexed teams (map with_threads teams) (thread_entries 0 teams) in
      ap (λ lines. load_messages d (read_lines (write_lines lines)) start)
        (lines_each-gather (λ (t : Team). t.channels)
            (λ channel. lines_each (reply_lines d) channel.threads) teams
          ∙ lines_each-gather (λ (c : Channel). c.threads) (reply_lines d) (all_channels teams))
      ∙ each_record-parts (λ (th : Thread). th.replies) (two_keys d 5)
          (λ th. reply_fields (Thread.get_uuid th)) load_message (all_threads teams) start ok
          (All-implies ThreadIsSaved
            (λ th. All (IsStored (two_keys d 5) (reply_fields (Thread.get_uuid th))) th.replies)
            (λ th h.
              All-implies ReplyIsSaved (IsStored (two_keys d 5) (reply_fields (Thread.get_uuid th)))
                (reply-IsStored d th h) th.replies h.replies)
            (all_threads teams) (all_threads_saved teams saved))
      ∙ each_object-gather (λ (c : Channel). c.threads) reply_thread (all_channels teams) start
      ∙ each_object-gather (λ (t : Team). t.channels) reply_channel teams start
      ∙ reply_teams teams once.threads_once (teams-TeamRepliesPadded teams saved)

  objects_step :
      (users : List User) (messages : List Message) (disk : Disk)
      → ((file : SaveFile)
          → disk file ≡ some (write_lines (lines_for (serialize_data d users teams messages) file)))
      → load_objects d disk ≡ indexed teams (map full_team teams) (thread_entries 0 teams)
  unfolding load_objects lines_for serialize_data
  objects_step users messages disk saved_as =
      rw
        (
          saved_as teams_file,
          saved_as team_subscriptions_file,
          saved_as channels_file,
          saved_as threads_file,
          saved_as messages_file,
          teams_step,
          subscriptions_step,
          channels_step,
          threads_step,
          replies_step,
        )
        refl

-- What is loaded after a save to a directory in which every file can be written: the users in their order, each
-- with one session if there was any and with none otherwise; the teams in their order, with the channels, the
-- threads, the replies and the subscriptions in theirs; and the private messages in their order behind those that
-- the caller held. The delimiter is no backslash, no line feed and not the letter n or r; the arrays hold NULs only
-- behind their strings; the times fit in a long long; teams, channels, threads, replies, subscriptions and private
-- messages have identifiers, private messages authors, and replies no receiver; and no two teams, no two channels and no two threads
-- have the same identifier.
pub load-save :
    (access : Access) (d : ℕ) (users : List User) (teams : List Team) (messages : List Message)
    (disk : Disk) (old_users : List User) (old_teams : List Team) (old_messages : List Message)
    → access.directory ≡ true
    → ((file : SaveFile) → access.writable file ≡ true)
    → IsDelimiter d
    → All UserIsSaved users
    → All TeamIsSaved teams
    → AllDistinct teams
    → All MessageIsSaved messages
    → let loaded =
        load d (save access d users teams messages disk).1 old_users old_teams old_messages in
      (loaded.0 ≡ true)
      × (loaded.1 ≡ map reloaded users)
      × (loaded.2 ≡ teams)
      × (loaded.3 ≡ old_messages ++ messages)
load-save access d users teams messages disk old_users old_teams old_messages open_ok all_ok ok hu
      ht once hm =
    let all_saved = save-disk access d users teams messages disk open_ok all_ok in
    let (was, first, last) =
      users-load access d users teams messages disk old_users old_teams old_messages open_ok all_ok
        ok hu hm in
    (
      was,
      first,
      teams_readable d _ old_users old_teams old_messages _ (all_saved users_file)
          ∙ ap (λ (l : Loading). materialize_teams l.loaded_teams [])
              (objects_step d ok teams ht once users messages _ all_saved)
          ∙ materialize_teams-full teams [] (subscriptions-IsPadded teams ht),
      last,
    )
