-- ===== src/Database/Load/ReplyLoops.antt =====
-- The loop over all replies, loaded from what was saved (server/database/load/load.cpp, server/database/save/save.cpp).
use teams_mirror.Prelude.{List, [], ◌∷◌, ◌++◌, ◌≡◌, ◌∙◌, ap, subst, map, All}
use teams_mirror.Bytes.{view}
use teams_mirror.Models.Message.{Message}
use teams_mirror.Models.Thread.{Thread}
use teams_mirror.Models.Thread
use teams_mirror.Models.Channel.{Channel}
use teams_mirror.Models.Team.{Team}
use teams_mirror.Database.Records.Stored.{each_object}
use teams_mirror.Database.Loading.{LoadedThread, LoadedTeam, Loading, load_message}
use teams_mirror.Database.Save.{reply_fields}
use teams_mirror.Database.Load.Shapes.{
  each_object-steps, team_with, empty_thread, full_thread, All-middle, behind, stage_before,
  stage_after, stage_done,
}
use teams_mirror.Database.Load.Entries.{ThreadsDistinct, thread_entries}
use teams_mirror.Database.Load.Threads.{with_threads_of, with_threads}
use teams_mirror.Database.Load.ThreadLoops.{indexed}
use teams_mirror.Database.Load.Replies.{
  ReplyIsPadded, full_channel, full_team, thread_with, in_channel, in_thread, in_teams,
  load_message-reply_fields,
}

abbrev pub reply_one : Thread → Message → Loading → Loading
reply_one th m l = load_message (reply_fields (Thread.get_uuid th) m) l

abbrev pub reply_thread : Thread → Loading → Loading
reply_thread th l = each_object (reply_one th) th.replies l

abbrev pub reply_channel : Channel → Loading → Loading
reply_channel c l = each_object reply_thread c.threads l

abbrev pub reply_team : Team → Loading → Loading
reply_team t l = each_object reply_channel t.channels l

unfoldable pub ThreadRepliesPadded : Thread → Type 0
ThreadRepliesPadded th = All ReplyIsPadded th.replies

unfoldable pub ChannelRepliesPadded : Channel → Type 0
ChannelRepliesPadded c = All ThreadRepliesPadded c.threads

unfoldable pub TeamRepliesPadded : Team → Type 0
TeamRepliesPadded t = All ChannelRepliesPadded t.channels

-- The threads of a channel, of which some are done.
abbrev some_threads : List Thread → Channel → List LoadedThread
some_threads ths c = map full_thread ths ++ map empty_thread (behind ths c.threads)

abbrev some_channels : List Channel → Team → LoadedTeam
some_channels cs t =
    team_with (map view t.subscribed_user_uuids)
      (map full_channel cs ++ map with_threads_of (behind cs t.channels)) t

reply_thread-stage :
    (teams done : List Team) (t : Team) (rest : List Team) (cs : List Channel) (c : Channel)
    (more : List Channel) (ths : List Thread) (th : Thread) (others : List Thread)
    → ThreadsDistinct teams
    → ThreadRepliesPadded th
    → teams ≡ done ++ t ∷ rest
    → t.channels ≡ cs ++ c ∷ more
    → c.threads ≡ ths ++ th ∷ others
    → reply_thread th (in_teams teams done (in_channel (some_threads ths c) cs c more t) rest)
      ≡ in_teams teams done (in_channel (some_threads (ths ++ th ∷ []) c) cs c more t) rest
unfolding ThreadRepliesPadded empty_thread full_thread thread_with
reply_thread-stage teams done t rest cs c more ths th others once padded e f g =
    ap (λ xs. reply_thread th (in_teams teams done (in_channel xs cs c more t) rest))
      (stage_before full_thread empty_thread c.threads ths th others g)
    ∙ each_object-steps (reply_one th)
        (λ ms. in_teams teams done (in_channel (in_thread ms ths th others) cs c more t) rest)
        th.replies
        (λ ms m later h.
          load_message-reply_fields teams done t rest cs c more ths th others ms m once
            (All-middle ReplyIsPadded ms m later (subst (All ReplyIsPadded) h padded)) e f g)
    ∙ ap (λ xs. in_teams teams done (in_channel xs cs c more t) rest)
        (stage_after full_thread empty_thread c.threads ths th others g)

reply_channel-stage :
    (teams done : List Team) (t : Team) (rest : List Team) (cs : List Channel) (c : Channel)
    (more : List Channel)
    → ThreadsDistinct teams
    → ChannelRepliesPadded c
    → teams ≡ done ++ t ∷ rest
    → t.channels ≡ cs ++ c ∷ more
    → reply_channel c (in_teams teams done (some_channels cs t) rest)
      ≡ in_teams teams done (some_channels (cs ++ c ∷ []) t) rest
unfolding ChannelRepliesPadded with_threads_of full_channel
reply_channel-stage teams done t rest cs c more once padded e f =
    let users = map view t.subscribed_user_uuids in
    ap (λ xs. reply_channel c (in_teams teams done (team_with users xs t) rest))
      (stage_before full_channel with_threads_of t.channels cs c more f)
    ∙ each_object-steps reply_thread
        (λ ths. in_teams teams done (in_channel (some_threads ths c) cs c more t) rest) c.threads
        (λ ths th others g.
          reply_thread-stage teams done t rest cs c more ths th others once
            (All-middle ThreadRepliesPadded ths th others
              (subst (All ThreadRepliesPadded) g padded))
            e f g)
    ∙ ap (λ xs. in_teams teams done (in_channel xs cs c more t) rest)
        (stage_done full_thread empty_thread c.threads)
    ∙ ap (λ xs. in_teams teams done (team_with users xs t) rest)
        (stage_after full_channel with_threads_of t.channels cs c more f)

reply_team-stage :
    (teams done : List Team) (t : Team) (rest : List Team)
    → ThreadsDistinct teams
    → TeamRepliesPadded t
    → teams ≡ done ++ t ∷ rest
    → reply_team t (
        indexed teams
          (map full_team done ++ map with_threads (behind done teams))
          (thread_entries 0 teams))
      ≡ indexed teams
          (map full_team (done ++ t ∷ []) ++ map with_threads (behind (done ++ t ∷ []) teams))
          (thread_entries 0 teams)
unfolding TeamRepliesPadded with_threads full_team
reply_team-stage teams done t rest once padded e =
    let users = map view t.subscribed_user_uuids in
    ap (λ xs. reply_team t (indexed teams xs (thread_entries 0 teams)))
      (stage_before full_team with_threads teams done t rest e)
    ∙ each_object-steps reply_channel (λ cs. in_teams teams done (some_channels cs t) rest)
        t.channels
        (λ cs c more f.
          reply_channel-stage teams done t rest cs c more once
            (All-middle ChannelRepliesPadded cs c more (subst (All ChannelRepliesPadded) f padded))
            e f)
    ∙ ap (λ xs. in_teams teams done (team_with users xs t) rest)
        (stage_done full_channel with_threads_of t.channels)
    ∙ ap (λ xs. indexed teams xs (thread_entries 0 teams))
        (stage_after full_team with_threads teams done t rest e)

-- All replies of all threads of all channels of all teams, behind the threads.
pub reply_teams :
    (teams : List Team)
    → ThreadsDistinct teams
    → All TeamRepliesPadded teams
    → each_object reply_team teams (indexed teams (map with_threads teams) (thread_entries 0 teams))
      ≡ indexed teams (map full_team teams) (thread_entries 0 teams)
reply_teams teams once padded =
    each_object-steps reply_team
      (λ done.
        indexed teams (map full_team done ++ map with_threads (behind done teams))
          (thread_entries 0 teams))
      teams
      (λ done t rest e.
        reply_team-stage teams done t rest once
          (All-middle TeamRepliesPadded done t rest (subst (All TeamRepliesPadded) e padded)) e)
    ∙ ap (λ xs. indexed teams xs (thread_entries 0 teams)) (stage_done full_team with_threads teams)
