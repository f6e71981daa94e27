-- ===== src/Database/Load/Accepted.antt =====
-- What follows from the conditions on saved teams (server/database/save/save.cpp) for the loops that load them
-- (server/database/load/load.cpp): the lines of every file are accepted, and the arrays are padded.
use teams_mirror.Prelude.{ℕ, List, refl, All, arith}
use teams_mirror.Bytes.{Bytes}
use teams_mirror.Protocol.Limits.{uuid_length}
use teams_mirror.Models.Message.{Message}
use teams_mirror.Models.Thread.{Thread}
use teams_mirror.Models.Thread
use teams_mirror.Models.Channel.{Channel}
use teams_mirror.Models.Channel
use teams_mirror.Models.Team.{Team}
use teams_mirror.Models.Team
use teams_mirror.Database.Records.{two_keys}
use teams_mirror.Database.Records.Stored.{accepts, IsStored, All-implies}
use teams_mirror.Database.Records.Nested.{gather, All-gather}
use teams_mirror.Database.Save.{
  team_fields, subscription_fields, channel_fields, thread_fields, reply_fields,
}
use teams_mirror.Database.Loading.{team_format}
use teams_mirror.Database.Load.Stored.{IsPadded}
use teams_mirror.Database.Load.Channels.{ChannelIsPadded, ChannelsPadded}
use teams_mirror.Database.Load.Threads.{ThreadIsPadded}
use teams_mirror.Database.Load.ThreadLoops.{ChannelThreadsPadded, ThreadsPadded}
use teams_mirror.Database.Load.Replies.{ReplyIsPadded}
use teams_mirror.Database.Load.ReplyLoops.{
  ThreadRepliesPadded, ChannelRepliesPadded, TeamRepliesPadded,
}
use teams_mirror.Database.Load.Saved.{
  SubscriptionIsSaved, ReplyIsSaved, ThreadIsSaved, ChannelIsSaved, TeamIsSaved,
}

abbrev pub all_channels : List Team → List Channel
all_channels teams = gather (λ (t : Team). t.channels) teams

abbrev pub all_threads : List Team → List Thread
all_threads teams = gather (λ (c : Channel). c.threads) (all_channels teams)

module _ (d : ℕ) where
  pub team_fields-IsStored : (t : Team) → TeamIsSaved t → IsStored (team_format d) team_fields t
  unfolding IsStored accepts team_fields
  team_fields-IsStored t h = (_, _, _, refl, ground (arith, h.named))

  pub subscription-IsStored :
      (t : Team)
      → TeamIsSaved t
      → (stored : Bytes) → SubscriptionIsSaved stored
      → IsStored (two_keys d 2) (subscription_fields (Team.get_uuid t)) stored
  unfolding IsStored accepts subscription_fields
  subscription-IsStored t h stored k = (_, _, _, refl, ground (arith, h.named, k.named))

  pub channel-IsStored :
      (t : Team)
      → TeamIsSaved t
      → (c : Channel) → ChannelIsSaved c
      → IsStored (two_keys d 4) (channel_fields (Team.get_uuid t)) c
  unfolding IsStored accepts channel_fields
  channel-IsStored t h c k = (_, _, _, refl, ground (arith, h.named, k.named))

  pub thread-IsStored :
      (c : Channel)
      → ChannelIsSaved c
      → (th : Thread) → ThreadIsSaved th
      → IsStored (two_keys d 6) (thread_fields (Channel.get_uuid c)) th
  unfolding IsStored accepts thread_fields
  thread-IsStored c h th k = (_, _, _, refl, ground (arith, h.named, k.named))

  pub reply-IsStored :
      (th : Thread)
      → ThreadIsSaved th
      → (m : Message) → ReplyIsSaved m
      → IsStored (two_keys d 5) (reply_fields (Thread.get_uuid th)) m
  unfolding IsStored accepts reply_fields
  reply-IsStored th h m k = (_, _, _, refl, ground (arith, h.named, k.named))

module _ (teams : List Team) (saved : All TeamIsSaved teams) where
  pub all_channels_saved : All ChannelIsSaved (all_channels teams)
  all_channels_saved =
      All-gather (λ (t : Team). t.channels) ChannelIsSaved teams
        (All-implies TeamIsSaved (λ t. All ChannelIsSaved t.channels) (λ t h. h.channels) teams
          saved)

  pub all_threads_saved : All ThreadIsSaved (all_threads teams)
  all_threads_saved =
      All-gather (λ (c : Channel). c.threads) ThreadIsSaved (all_channels teams)
        (All-implies ChannelIsSaved (λ c. All ThreadIsSaved c.threads) (λ c h. h.threads)
          (all_channels teams) all_channels_saved)

  pub teams-ChannelsPadded : ChannelsPadded teams
  unfolding ChannelsPadded
  teams-ChannelsPadded =
      All-implies TeamIsSaved (λ t. All ChannelIsPadded t.channels)
        (λ t h. All-implies ChannelIsSaved ChannelIsPadded (λ c k. k.padded) t.channels h.channels)
        teams saved

  pub teams-ThreadsPadded : ThreadsPadded teams
  unfolding ThreadsPadded ChannelThreadsPadded
  teams-ThreadsPadded =
      All-implies TeamIsSaved (λ t. All ChannelThreadsPadded t.channels)
        (λ t h.
          All-implies ChannelIsSaved ChannelThreadsPadded
            (λ c k. All-implies ThreadIsSaved ThreadIsPadded (λ th i. i.padded) c.threads k.threads)
            t.channels h.channels)
        teams saved

  pub teams-TeamRepliesPadded : All TeamRepliesPadded teams
  unfolding TeamRepliesPadded ChannelRepliesPadded ThreadRepliesPadded
  teams-TeamRepliesPadded =
      All-implies TeamIsSaved TeamRepliesPadded
        (λ t h.
          All-implies ChannelIsSaved ChannelRepliesPadded
            (λ c k.
              All-implies ThreadIsSaved ThreadRepliesPadded
                (λ th i.
                  All-implies ReplyIsSaved ReplyIsPadded (λ m j. j.padded) th.replies i.replies)
                c.threads k.threads)
            t.channels h.channels)
        teams saved

  pub subscriptions-IsPadded : All (λ t. All (IsPadded uuid_length) t.subscribed_user_uuids) teams
  subscriptions-IsPadded =
      All-implies TeamIsSaved (λ t. All (IsPadded uuid_length) t.subscribed_user_uuids)
        (λ t h.
          All-implies SubscriptionIsSaved (IsPadded uuid_length) (λ s k. k.padded)
            t.subscribed_user_uuids h.subscriptions)
        teams saved
