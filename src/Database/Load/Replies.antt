-- ===== src/Database/Load/Replies.antt =====
-- The replies, loaded from what was saved (server/database/load/load.cpp, server/database/save/save.cpp).
use teams_mirror.Prelude.{
  List, [], ◌∷◌, ◌++◌, ◌≡◌, ◌∙◌, ap, sym, subst, some, map, length, bytes_eq,
}
use teams_mirror.Bytes.{Bytes, view}
use teams_mirror.Protocol.Limits.{uuid_length, max_body_length}
use teams_mirror.Fields.{zeroed}
use teams_mirror.Map.{find, KeysOnce}
use teams_mirror.Models.Message.{Message}
use teams_mirror.Models.Message
use teams_mirror.Models.Thread.{Thread}
use teams_mirror.Models.Thread
use teams_mirror.Models.Channel.{Channel}
use teams_mirror.Models.Team.{Team}
use teams_mirror.Database.Time.Printed.{IsLongLong, parse_time_value-to_string}
use teams_mirror.Database.Loading.{
  LoadedTeam, LoadedChannel, LoadedThread, Loading, load_message, place_reply, push_reply,
  change_at,
}
use teams_mirror.Database.Save.{reply_fields}
use teams_mirror.Database.Load.Stored.{IsPadded}
use teams_mirror.Database.Load.Shapes.{
  find-middle, team_with, channel_with, empty_thread, full_thread, change-stage,
}
use teams_mirror.Database.Load.Entries.{ThreadsDistinct, thread_entries, thread_entry}
use teams_mirror.Database.Load.Threads.{with_threads_of, with_threads}
use teams_mirror.Database.Load.ThreadLoops.{indexed}

-- A reply has no receiver.
unfoldable pub ReplyIsPadded : Message → Type 0
ReplyIsPadded m =
    IsPadded uuid_length m.uuid
    × IsPadded uuid_length m.author_uuid
    × IsPadded max_body_length m.body
    × (m.receiver_uuid ≡ zeroed uuid_length)
    × IsLongLong m.created_at

unfoldable pub full_channel : Channel → LoadedChannel
full_channel c = channel_with (map full_thread c.threads) c

unfoldable pub full_team : Team → LoadedTeam
full_team t = team_with (map view t.subscribed_user_uuids) (map full_channel t.channels) t

-- A thread with some of its replies, in its channel, in its team.
unfoldable pub thread_with : List Message → Thread → LoadedThread
thread_with ms th = record { thread = record th { replies = [] }; replies = ms }

abbrev pub in_channel :
    List LoadedThread → List Channel → Channel → List Channel → Team → LoadedTeam
in_channel threads cs c more t =
    team_with (map view t.subscribed_user_uuids)
      (map full_channel cs ++ channel_with threads c ∷ map with_threads_of more) t

abbrev pub in_thread : List Message → List Thread → Thread → List Thread → List LoadedThread
in_thread ms ths th others = map full_thread ths ++ thread_with ms th ∷ map empty_thread others

abbrev pub in_teams : List Team → List Team → LoadedTeam → List Team → Loading
in_teams teams done x rest =
    indexed teams (map full_team done ++ x ∷ map with_threads rest) (thread_entries 0 teams)

push_reply-team :
    (ms : List Message) (m : Message) (ths : List Thread) (th : Thread) (others : List Thread)
    (cs : List Channel) (c : Channel) (more : List Channel) (t : Team)
    → push_reply (length cs) (length ths) m (in_channel (in_thread ms ths th others) cs c more t)
      ≡ in_channel (in_thread (ms ++ m ∷ []) ths th others) cs c more t
unfolding push_reply team_with channel_with thread_with
push_reply-team ms m ths th others cs c more t =
    let reply = λ (l : LoadedThread). record l { replies = l.replies ++ m ∷ [] } in
    ap (λ channels. team_with (map view t.subscribed_user_uuids) channels t)
      (change-stage full_channel with_threads_of cs
          (λ l. record l { threads = change_at (length ths) reply l.threads })
          (channel_with (in_thread ms ths th others) c) more
        ∙ ap (λ threads. map full_channel cs ++ channel_with threads c ∷ map with_threads_of more)
            (change-stage full_thread empty_thread ths reply (thread_with ms th) others))

pub load_message-reply_fields :
    (teams done : List Team) (t : Team) (rest : List Team) (cs : List Channel) (c : Channel)
    (more : List Channel) (ths : List Thread) (th : Thread) (others : List Thread)
    (ms : List Message) (m : Message)
    → ThreadsDistinct teams
    → ReplyIsPadded m
    → teams ≡ done ++ t ∷ rest
    → t.channels ≡ cs ++ c ∷ more
    → c.threads ≡ ths ++ th ∷ others
    → load_message
        (reply_fields (Thread.get_uuid th) m)
        (in_teams teams done (in_channel (in_thread ms ths th others) cs c more t) rest)
      ≡ in_teams teams done (in_channel (in_thread (ms ++ m ∷ []) ths th others) cs c more t) rest
unfolding load_message place_reply reply_fields ThreadsDistinct ReplyIsPadded IsPadded Message.make
load_message-reply_fields teams done t rest cs c more ths th others ms m once padded e f g =
    let (later, split) = thread_entry teams done t rest cs c more ths th others e f g in
    let found : find (Thread.get_uuid th) (thread_entries 0 teams)
        ≡ some (length done, length cs, length ths) =
      ap (find (Thread.get_uuid th)) split ∙ find-middle _ _ _ _ (subst KeysOnce split once) in
    let placed =
      change-stage full_team with_threads done (push_reply (length cs) (length ths) m)
        (in_channel (in_thread ms ths th others) cs c more t) rest
      ∙ ap (λ x. map full_team done ++ x ∷ map with_threads rest)
          (push_reply-team ms m ths th others cs c more t) in
    rw
      (
        parse_time_value-to_string m.created_at padded.4,
        load_message,
        found,
        place_reply,
        padded.0,
        padded.1,
        padded.2,
      )
      (ap
          (λ x.
            indexed teams
              (change_at (length done) (push_reply (length cs) (length ths) x) (
                map full_team done
                ++ in_channel (in_thread ms ths th others) cs c more t ∷ map with_threads rest))
              (thread_entries 0 teams))
          (ap (λ (r : Bytes). record m { receiver_uuid = r }) (sym padded.3))
        ∙ ap (λ ts. indexed teams ts (thread_entries 0 teams)) placed)
