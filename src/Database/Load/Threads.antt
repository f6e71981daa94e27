-- ===== src/Database/Load/Threads.antt =====
-- The threads, loaded from what was saved (server/database/load/load.cpp, server/database/save/save.cpp).
use teams_mirror.Prelude.{
  ℕ, List, [], ◌∷◌, ◌++◌, ◌≡◌, refl, ◌∙◌, ap, sym, subst, map, length, append_assoc, arith,
  bytes_eq,
}
use mathlib.Core.List.{map-append}
use teams_mirror.Bytes.{view}
use teams_mirror.Protocol.Limits.{uuid_length, max_name_length, max_body_length}
use teams_mirror.Map.{KeysOnce}
use teams_mirror.Models.Thread.{Thread}
use teams_mirror.Models.Thread
use teams_mirror.Models.Channel.{Channel}
use teams_mirror.Models.Channel
use teams_mirror.Models.Team.{Team}
use teams_mirror.Database.Time.Printed.{IsLongLong, parse_time_value-to_string}
use teams_mirror.Database.Loading.{
  LoadedTeam, LoadedChannel, Loading, load_thread, place_thread, push_thread, thread_count,
  thread_count_in,
}
use teams_mirror.Database.Save.{thread_fields}
use teams_mirror.Database.Load.Stored.{IsPadded}
use teams_mirror.Database.Load.Shapes.{
  contains-before, emplace-last, team_with, channel_with, empty_thread, team_entries,
  channel_entries, length-map, change-stage,
}
use teams_mirror.Database.Load.Channels.{ChannelsDistinct, find-channel, with_channels}
use teams_mirror.Database.Load.Entries.{
  ThreadsDistinct, thread_entries, entries_of_channels, entries_of_threads, entries_before,
  thread_entry, entries_of_threads-append,
}

unfoldable pub ThreadIsPadded : Thread → Type 0
ThreadIsPadded th =
    IsPadded uuid_length th.uuid
    × IsPadded uuid_length th.author_uuid
    × IsPadded max_name_length th.title
    × IsPadded max_body_length th.body
    × IsLongLong th.created_at

unfoldable pub with_threads_of : Channel → LoadedChannel
with_threads_of c = channel_with (map empty_thread c.threads) c

unfoldable pub with_threads : Team → LoadedTeam
with_threads t = team_with (map view t.subscribed_user_uuids) (map with_threads_of t.channels) t

-- A team with the threads of the channels that are done, some of the next one, and none of those behind.
unfoldable pub threading_team :
    List Channel → List Thread → Channel → List Channel → Team → LoadedTeam
threading_team cs ths c more t =
    team_with (map view t.subscribed_user_uuids)
      (map with_threads_of cs ++ channel_with (map empty_thread ths) c ∷ map (channel_with []) more)
      t

unfoldable pub threading :
    List Team
    → List Team
    → List Channel
    → List Thread
    → Channel
    → List Channel
    → Team
    → List Team
    → Loading
threading teams done cs ths c more t rest = record {
  loaded_teams = map with_threads done ++ threading_team cs ths c more t ∷ map with_channels rest;
  team_indexes = team_entries 0 teams;
  channel_indexes = channel_entries 0 teams;
  thread_indexes = entries_before done cs ths;
}

push_thread-team :
    (cs : List Channel) (ths : List Thread) (th : Thread) (c : Channel) (more : List Channel)
    (t : Team)
    → push_thread (length cs) (empty_thread th) (threading_team cs ths c more t)
      ≡ threading_team cs (ths ++ th ∷ []) c more t
unfolding push_thread threading_team team_with channel_with
push_thread-team cs ths th c more t =
    ap (λ channels. team_with (map view t.subscribed_user_uuids) channels t)
      (change-stage with_threads_of (channel_with []) cs
          (λ l. record l { threads = l.threads ++ empty_thread th ∷ [] })
          (channel_with (map empty_thread ths) c) more
        ∙ ap (λ xs. map with_threads_of cs ++ channel_with xs c ∷ map (channel_with []) more)
            (sym (map-append empty_thread ths (th ∷ []))))

thread_count_in-middle :
    (before : List LoadedChannel) (x : LoadedChannel) (after : List LoadedChannel)
    → thread_count_in (length before) (before ++ x ∷ after) ≡ length x.threads
unfolding thread_count_in
thread_count_in-middle [] x after = refl
thread_count_in-middle (y ∷ before) x after = thread_count_in-middle before x after

thread_count-middle :
    (k : ℕ) (before : List LoadedTeam) (x : LoadedTeam) (after : List LoadedTeam)
    → thread_count (length before, k) (before ++ x ∷ after) ≡ thread_count_in k x.channels
unfolding thread_count
thread_count-middle k [] x after = refl
thread_count-middle k (y ∷ before) x after = thread_count-middle k before x after

-- The number of threads of the channel that is loaded.
count_threads :
    (done : List Team) (cs : List Channel) (ths : List Thread) (c : Channel) (more : List Channel)
    (t : Team) (rest : List Team)
    → thread_count
        (length done, length cs)
        (map with_threads done ++ threading_team cs ths c more t ∷ map with_channels rest)
      ≡ length ths
unfolding threading_team team_with channel_with
count_threads done cs ths c more t rest =
    let xs = map with_threads done ++ threading_team cs ths c more t ∷ map with_channels rest in
    ap (λ n. thread_count (n, length cs) xs) (sym (length-map with_threads done))
    ∙ thread_count-middle (length cs) (map with_threads done) (threading_team cs ths c more t)
        (map with_channels rest)
    ∙ ap (λ n. thread_count_in n (threading_team cs ths c more t).channels)
        (sym (length-map with_threads_of cs))
    ∙ thread_count_in-middle (map with_threads_of cs) (channel_with (map empty_thread ths) c)
        (map (channel_with []) more)
    ∙ length-map empty_thread ths

entries_last :
    (done : List Team) (cs : List Channel) (ths : List Thread) (th : Thread)
    → entries_before done cs ths ++ (Thread.get_uuid th, (length done, length cs, length ths)) ∷ []
      ≡ entries_before done cs (ths ++ th ∷ [])
unfolding entries_of_threads
entries_last done cs ths th =
    append_assoc (thread_entries 0 done ++ entries_of_channels (length done) 0 cs)
      (entries_of_threads (length done) (length cs) 0 ths) _
    ∙ ap (λ m. (thread_entries 0 done ++ entries_of_channels (length done) 0 cs) ++ m)
        (sym (
          entries_of_threads-append (length done) (length cs) 0 ths (th ∷ [])
          ∙ ap
              (λ j.
                entries_of_threads (length done) (length cs) 0 ths
                ++ entries_of_threads (length done) (length cs) j (th ∷ []))
              (omega arith)))

pub load_thread-thread_fields :
    (teams done : List Team) (t : Team) (rest : List Team) (cs : List Channel) (c : Channel)
    (more : List Channel) (ths : List Thread) (th : Thread) (others : List Thread)
    → ChannelsDistinct teams
    → ThreadsDistinct teams
    → ThreadIsPadded th
    → teams ≡ done ++ t ∷ rest
    → t.channels ≡ cs ++ c ∷ more
    → c.threads ≡ ths ++ th ∷ others
    → load_thread
        (thread_fields (Channel.get_uuid c) th)
        (threading teams done cs ths c more t rest)
      ≡ threading teams done cs (ths ++ th ∷ []) c more t rest
unfolding load_thread place_thread thread_fields threading ThreadsDistinct ThreadIsPadded IsPadded
    Thread.make empty_thread
load_thread-thread_fields teams done t rest cs c more ths th others once threads_once padded e f g =
    let (later, split) = thread_entry teams done t rest cs c more ths th others e f g in
    let new = contains-before _ _ _ _ (subst KeysOnce split threads_once) in
    let loaded = map with_threads done ++ threading_team cs ths c more t ∷ map with_channels rest in
    let placed =
      change-stage with_threads with_channels done (push_thread (length cs) (empty_thread th))
        (threading_team cs ths c more t) rest
      ∙ ap (λ x. map with_threads done ++ x ∷ map with_channels rest)
          (push_thread-team cs ths th c more t) in
    let entered =
      emplace-last (entries_before done cs ths) (Thread.get_uuid th)
        (length done, length cs, thread_count (length done, length cs) loaded) new
      ∙ ap
          (λ j.
            entries_before done cs ths ++ (Thread.get_uuid th, (length done, length cs, j)) ∷ [])
          (count_threads done cs ths c more t rest)
      ∙ entries_last done cs ths th in
    rw
      (
        new,
        parse_time_value-to_string th.created_at padded.4,
        load_thread,
        find-channel teams done t rest cs c more once e f,
        place_thread,
        padded.0,
        padded.1,
        padded.2,
        padded.3,
      )
      (λ i. record {
        loaded_teams = placed i;
        team_indexes = team_entries 0 teams;
        channel_indexes = channel_entries 0 teams;
        thread_indexes = entered i;
      })
