-- ===== src/Database/Materialize.antt =====
-- materializeTeams of server/database/load/load.cpp, its loops from the inside out.
use teams_mirror.Prelude.{List, [], ◌∷◌, ◌++◌, bytes_eq}
use teams_mirror.Bytes.{Bytes}
use teams_mirror.Models.Message.{Message}
use teams_mirror.Models.Thread.{Thread, add_reply}
use teams_mirror.Models.Channel.{Channel, add_thread}
use teams_mirror.Models.Team.{Team, add_channel, add_subscribed_user}
use teams_mirror.Database.Loading.{LoadedThread, LoadedChannel, LoadedTeam}

unfoldable pub add_replies : List Message → Thread → Thread
add_replies [] thread = thread
add_replies (reply ∷ replies) thread = add_replies replies (add_reply reply thread)

unfoldable pub add_threads : List LoadedThread → Channel → Channel
unfolding add_replies
add_threads [] channel = channel
add_threads (t ∷ ts) channel = add_threads ts (add_thread (add_replies t.replies t.thread) channel)

unfoldable pub add_subscriptions : List Bytes → Team → Team
add_subscriptions [] team = team
add_subscriptions (user ∷ users) team = add_subscriptions users (add_subscribed_user user team)

unfoldable pub add_channels : List LoadedChannel → Team → Team
unfolding add_threads
add_channels [] team = team
add_channels (c ∷ cs) team = add_channels cs (add_channel (add_threads c.threads c.channel) team)

unfoldable pub materialize_team : LoadedTeam → Team
unfolding add_subscriptions add_channels
materialize_team t = add_channels t.channels (add_subscriptions t.subscribed_users t.team)

unfoldable pub materialize_teams : List LoadedTeam → List Team → List Team
unfolding materialize_team
materialize_teams [] teams = teams
materialize_teams (t ∷ ts) teams = materialize_teams ts (teams ++ materialize_team t ∷ [])
