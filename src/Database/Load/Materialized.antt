-- ===== src/Database/Load/Materialized.antt =====
-- What materializeTeams (server/database/load/load.cpp) makes of the teams when all their objects are loaded.
use teams_mirror.Prelude.{
  List, [], ◌∷◌, ◌++◌, ◌≡◌, ◌∙◌, ap, sym, map, All, append_assoc, append-nil,
}
use teams_mirror.Bytes.{Bytes, view}
use teams_mirror.Protocol.Limits.{uuid_length}
use teams_mirror.Models.Message.{Message}
use teams_mirror.Models.Thread.{Thread, add_reply}
use teams_mirror.Models.Channel.{Channel, add_thread}
use teams_mirror.Models.Team.{Team, add_channel, add_subscribed_user, make_uuid}
use teams_mirror.Database.Materialize.{
  add_replies, add_threads, add_subscriptions, add_channels, materialize_team, materialize_teams,
}
use teams_mirror.Database.Load.Stored.{IsPadded}
use teams_mirror.Database.Load.Shapes.{team_with, channel_with, full_thread}
use teams_mirror.Database.Load.Replies.{full_channel, full_team}

add_replies_lem :
    (replies : List Message) (th : Thread)
    → add_replies replies th ≡ record th { replies = th.replies ++ replies }
unfolding add_replies add_reply
add_replies_lem [] th =
    ap (λ (ms : List Message). record th { replies = ms }) (sym (append-nil th.replies))
add_replies_lem (m ∷ replies) th =
    add_replies_lem replies (add_reply m th)
    ∙ ap (λ (ms : List Message). record th { replies = ms })
        (append_assoc th.replies (m ∷ []) replies)

add_threads_lem :
    (threads : List Thread) (c : Channel)
    → add_threads (map full_thread threads) c ≡ record c { threads = c.threads ++ threads }
unfolding add_threads add_thread full_thread
add_threads_lem [] c =
    ap (λ (ths : List Thread). record c { threads = ths }) (sym (append-nil c.threads))
add_threads_lem (th ∷ threads) c =
    ap (λ x. add_threads (map full_thread threads) (add_thread x c))
      (add_replies_lem th.replies (record th { replies = [] }))
    ∙ add_threads_lem threads (add_thread th c)
    ∙ ap (λ (ths : List Thread). record c { threads = ths })
        (append_assoc c.threads (th ∷ []) threads)

add_channels_lem :
    (channels : List Channel) (t : Team)
    → add_channels (map full_channel channels) t ≡ record t { channels = t.channels ++ channels }
unfolding add_channels add_channel full_channel channel_with
add_channels_lem [] t =
    ap (λ (cs : List Channel). record t { channels = cs }) (sym (append-nil t.channels))
add_channels_lem (c ∷ channels) t =
    ap (λ x. add_channels (map full_channel channels) (add_channel x t))
      (add_threads_lem c.threads (record c { threads = [] }))
    ∙ add_channels_lem channels (add_channel c t)
    ∙ ap (λ (cs : List Channel). record t { channels = cs })
        (append_assoc t.channels (c ∷ []) channels)

add_subscriptions_lem :
    (users : List Bytes) (t : Team)
    → All (IsPadded uuid_length) users
    → add_subscriptions (map view users) t
      ≡ record t { subscribed_user_uuids = t.subscribed_user_uuids ++ users }
unfolding add_subscriptions add_subscribed_user make_uuid IsPadded
add_subscriptions_lem [] t h =
    ap (λ (us : List Bytes). record t { subscribed_user_uuids = us })
      (sym (append-nil t.subscribed_user_uuids))
add_subscriptions_lem (u ∷ users) t h =
    ap
      (λ (x : Bytes).
        add_subscriptions (map view users)
          (record t { subscribed_user_uuids = t.subscribed_user_uuids ++ x ∷ [] }))
      h.0
    ∙ add_subscriptions_lem users
        (record t { subscribed_user_uuids = t.subscribed_user_uuids ++ u ∷ [] }) h.1
    ∙ ap (λ (us : List Bytes). record t { subscribed_user_uuids = us })
        (append_assoc t.subscribed_user_uuids (u ∷ []) users)

materialize_team-full :
    (t : Team)
    → All (IsPadded uuid_length) t.subscribed_user_uuids
    → materialize_team (full_team t) ≡ t
unfolding materialize_team full_team team_with
materialize_team-full t h =
    ap (λ x. add_channels (map full_channel t.channels) x)
      (add_subscriptions_lem t.subscribed_user_uuids
        (record t { subscribed_user_uuids = []; channels = [] }) h)
    ∙ add_channels_lem t.channels (record t { channels = [] })

pub materialize_teams-full :
    (ts before : List Team)
    → All (λ t. All (IsPadded uuid_length) t.subscribed_user_uuids) ts
    → materialize_teams (map full_team ts) before ≡ before ++ ts
unfolding materialize_teams
materialize_teams-full [] before h = sym (append-nil before)
materialize_teams-full (t ∷ ts) before h =
    ap (λ x. materialize_teams (map full_team ts) (before ++ x ∷ [])) (materialize_team-full t h.0)
    ∙ materialize_teams-full ts (before ++ t ∷ []) h.1
    ∙ append_assoc before (t ∷ []) ts
