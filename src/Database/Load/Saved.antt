-- ===== src/Database/Load/Saved.antt =====
-- What is asked of the objects that DatabaseSaver::save (server/database/save/save.cpp) saves.
use teams_mirror.Prelude.{false, List, ◌≡◌, All, is_empty}
use teams_mirror.Bytes.{Bytes, view}
use teams_mirror.Protocol.Limits.{uuid_length}
use teams_mirror.Models.Message.{Message}
use teams_mirror.Models.Message
use teams_mirror.Models.Thread.{Thread}
use teams_mirror.Models.Thread
use teams_mirror.Models.Channel.{Channel}
use teams_mirror.Models.Channel
use teams_mirror.Models.Team.{Team}
use teams_mirror.Models.Team
use teams_mirror.Database.Load.Stored.{IsPadded}
use teams_mirror.Database.Load.Teams.{TeamIsPadded, TeamsDistinct}
use teams_mirror.Database.Load.Channels.{ChannelIsPadded, ChannelsDistinct}
use teams_mirror.Database.Load.Entries.{ThreadsDistinct}
use teams_mirror.Database.Load.Threads.{ThreadIsPadded}
use teams_mirror.Database.Load.Replies.{ReplyIsPadded}

-- What is asked of the objects of a team: padded arrays, times that fit in a long long, and identifiers that are not empty.
pub record SubscriptionIsSaved (stored : Bytes) : Type 0 where
  pub padded : IsPadded uuid_length stored
  pub named : is_empty (view stored) ≡ false

pub record ReplyIsSaved (m : Message) : Type 0 where
  pub padded : ReplyIsPadded m
  pub named : is_empty (Message.get_uuid m) ≡ false

pub record ThreadIsSaved (th : Thread) : Type 0 where
  pub padded : ThreadIsPadded th
  pub named : is_empty (Thread.get_uuid th) ≡ false
  pub replies : All ReplyIsSaved th.replies

pub record ChannelIsSaved (c : Channel) : Type 0 where
  pub padded : ChannelIsPadded c
  pub named : is_empty (Channel.get_uuid c) ≡ false
  pub threads : All ThreadIsSaved c.threads

pub record TeamIsSaved (t : Team) : Type 0 where
  pub padded : TeamIsPadded t
  pub named : is_empty (Team.get_uuid t) ≡ false
  pub subscriptions : All SubscriptionIsSaved t.subscribed_user_uuids
  pub channels : All ChannelIsSaved t.channels

-- No two teams, no two channels and no two threads have the same identifier.
pub record AllDistinct (teams : List Team) : Type 0 where
  pub teams_once : TeamsDistinct teams
  pub channels_once : ChannelsDistinct teams
  pub threads_once : ThreadsDistinct teams
