-- ===== src/Database/Loading.antt =====
-- The teams while they are loaded: loadTeams, loadTeamSubscriptions, loadChannels, loadThreads and
-- loadMessages of server/database/load/load.cpp. The positions in the index maps are those of elements that
-- were pushed, and nothing is removed, so that `at` throws nowhere.
use teams_mirror.Prelude.{
  ℕ, zero, suc, true, false, none, some, List, [], ◌∷◌, ◌++◌, if◌then◌else◌, length, bytes_eq,
}
use teams_mirror.Prelude.Int.{ℤ}
use teams_mirror.Bytes.{Bytes}
use teams_mirror.Map.{Map, find, contains, emplace}
use teams_mirror.Models.Message.{Message}
use teams_mirror.Models.Message
use teams_mirror.Models.Thread.{Thread, add_reply}
use teams_mirror.Models.Thread
use teams_mirror.Models.Channel.{Channel, add_thread}
use teams_mirror.Models.Channel
use teams_mirror.Models.Team.{Team, add_channel, add_subscribed_user}
use teams_mirror.Models.Team
use teams_mirror.Database.Time.{parse_time_value}
use teams_mirror.Database.Records.{RecordFormat, field, each_record, two_keys}

pub record LoadedThread : Type 0 where
  pub thread : Thread
  pub replies : List Message

pub record LoadedChannel : Type 0 where
  pub channel : Channel
  pub threads : List LoadedThread

pub record LoadedTeam : Type 0 where
  pub team : Team
  pub subscribed_users : List Bytes
  pub channels : List LoadedChannel

abbrev pub ChannelPosition : Type 0
ChannelPosition = ℕ × ℕ

abbrev pub ThreadPosition : Type 0
ThreadPosition = ℕ × ℕ × ℕ

-- The vectors and the index maps while the objects of the teams are loaded.
pub record Loading : Type 0 where
  pub loaded_teams : List LoadedTeam
  pub team_indexes : Map Bytes ℕ
  pub channel_indexes : Map Bytes ChannelPosition
  pub thread_indexes : Map Bytes ThreadPosition

abbrev pub no_teams : Loading
no_teams = record {
  loaded_teams = [];
  team_indexes = [];
  channel_indexes = [];
  thread_indexes = [];
}

-- A change of the element at a position.
unfoldable pub change_at {ℓ} : {A : Type ℓ} → ℕ → (A → A) → List A → List A
change_at i f [] = []
change_at zero f (x ∷ xs) = f x ∷ xs
change_at (suc i) f (x ∷ xs) = x ∷ change_at i f xs

unfoldable pub load_team : List Bytes → Loading → Loading
load_team fields l = if contains (field fields 0) l.team_indexes then l else record l {
  loaded_teams =
      l.loaded_teams
      ++ (record {
        team = Team.make (field fields 0) (field fields 1) (field fields 2);
        subscribed_users = [];
        channels = [];
      })
        ∷ [];
  team_indexes = emplace (field fields 0) (length l.loaded_teams) l.team_indexes;
}

abbrev pub team_format : ℕ → RecordFormat
team_format d = record {
  delimiter = d;
  expected_field_count = 3;
  require_first_field = true;
  require_second_field = false;
}

unfoldable pub load_teams : ℕ → List Bytes → Loading → Loading
unfolding each_record load_team
load_teams delimiter lines l = each_record (team_format delimiter) load_team lines l

unfoldable pub push_subscription : Bytes → LoadedTeam → LoadedTeam
push_subscription user_uuid t = record t { subscribed_users = t.subscribed_users ++ user_uuid ∷ [] }

unfoldable pub load_subscription : List Bytes → Loading → Loading
unfolding change_at push_subscription
load_subscription fields l = elim (find (field fields 0) l.team_indexes) [
  | none ↦ l
  | some i ↦ record l {
    loaded_teams = change_at i (push_subscription (field fields 1)) l.loaded_teams;
  }
]

unfoldable pub load_team_subscriptions : ℕ → List Bytes → Loading → Loading
unfolding each_record load_subscription
load_team_subscriptions delimiter lines l =
    each_record (two_keys delimiter 2) load_subscription lines l

unfoldable pub push_channel : LoadedChannel → LoadedTeam → LoadedTeam
push_channel channel t = record t { channels = t.channels ++ channel ∷ [] }

-- The number of channels of the team at a position, and of threads of the channel at a position.
unfoldable pub channel_count : ℕ → List LoadedTeam → ℕ
channel_count i [] = 0
channel_count zero (t ∷ ts) = length t.channels
channel_count (suc i) (t ∷ ts) = channel_count i ts

unfoldable pub thread_count_in : ℕ → List LoadedChannel → ℕ
thread_count_in k [] = 0
thread_count_in zero (c ∷ cs) = length c.threads
thread_count_in (suc k) (c ∷ cs) = thread_count_in k cs

unfoldable pub thread_count : ChannelPosition → List LoadedTeam → ℕ
unfolding thread_count_in
thread_count p [] = 0
thread_count (zero, k) (t ∷ ts) = thread_count_in k t.channels
thread_count (suc i, k) (t ∷ ts) = thread_count (i, k) ts

unfoldable pub load_channel : List Bytes → Loading → Loading
unfolding change_at push_channel channel_count
load_channel fields l =
    if contains (field fields 1) l.channel_indexes
    then l
    else elim (find (field fields 0) l.team_indexes) [
      | none ↦ l
      | some i ↦ record l {
        loaded_teams =
            change_at i
              (push_channel (record {
                channel = Channel.make (field fields 1) (field fields 2) (field fields 3);
                threads = [];
              }))
              l.loaded_teams;
        channel_indexes =
            emplace (field fields 1) (i, channel_count i l.loaded_teams) l.channel_indexes;
      }
    ]

unfoldable pub load_channels : ℕ → List Bytes → Loading → Loading
unfolding each_record load_channel
load_channels delimiter lines l = each_record (two_keys delimiter 4) load_channel lines l

unfoldable pub push_thread : ℕ → LoadedThread → LoadedTeam → LoadedTeam
unfolding change_at
push_thread k thread t = record t {
  channels = change_at k (λ c. record c { threads = c.threads ++ thread ∷ [] }) t.channels;
}

-- The thread at its place; its time is parsed before its channel is looked up.
unfoldable pub place_thread : List Bytes → ℤ → Loading → Loading
unfolding change_at push_thread thread_count
place_thread fields created_at l = elim (find (field fields 0) l.channel_indexes) [
  | none ↦ l
  | some (i, k) ↦ record l {
    loaded_teams =
        change_at i
          (push_thread k (record {
            thread =
                Thread.make (field fields 1) (field fields 2) created_at (field fields 4)
                  (field fields 5);
            replies = [];
          }))
          l.loaded_teams;
    thread_indexes =
        emplace (field fields 1) (i, k, thread_count (i, k) l.loaded_teams) l.thread_indexes;
  }
]

unfoldable pub load_thread : List Bytes → Loading → Loading
unfolding place_thread
load_thread fields l =
    if contains (field fields 1) l.thread_indexes
    then l
    else elim (parse_time_value (field fields 3)) [
      | none ↦ l
      | some created_at ↦ place_thread fields created_at l
    ]

unfoldable pub load_threads : ℕ → List Bytes → Loading → Loading
unfolding each_record load_thread
load_threads delimiter lines l = each_record (two_keys delimiter 6) load_thread lines l

unfoldable pub push_reply : ℕ → ℕ → Message → LoadedTeam → LoadedTeam
unfolding change_at
push_reply k j reply t = record t {
  channels =
      change_at k
        (λ c. record c {
          threads = change_at j (λ th. record th { replies = th.replies ++ reply ∷ [] }) c.threads;
        })
        t.channels;
}

unfoldable pub place_reply : List Bytes → ℤ → Loading → Loading
unfolding change_at push_reply
place_reply fields created_at l = elim (find (field fields 0) l.thread_indexes) [
  | none ↦ l
  | some (i, k, j) ↦ record l {
    loaded_teams =
        change_at i
          (push_reply k j
            (Message.make (field fields 1) (field fields 2) created_at (field fields 4) []))
          l.loaded_teams;
  }
]

unfoldable pub load_message : List Bytes → Loading → Loading
unfolding place_reply
load_message fields l = elim (parse_time_value (field fields 3)) [
  | none ↦ l
  | some created_at ↦ place_reply fields created_at l
]

unfoldable pub load_messages : ℕ → List Bytes → Loading → Loading
unfolding each_record load_message
load_messages delimiter lines l = each_record (two_keys delimiter 5) load_message lines l
