-- ===== src/Database/Load/ThreadLoops.antt =====
-- The loop over all threads, loaded from what was saved (server/database/load/load.cpp, server/database/save/save.cpp).
use teams_mirror.Prelude.{
  List, [], ◌∷◌, ◌++◌, ◌≡◌, ◌∙◌, ap, sym, subst, map, All, length, append_assoc, append-nil, arith,
}
use mathlib.Core.Path.{ap₂}
use teams_mirror.Bytes.{Bytes, view}
use teams_mirror.Map.{Map}
use teams_mirror.Models.Thread.{Thread}
use teams_mirror.Models.Channel.{Channel}
use teams_mirror.Models.Channel
use teams_mirror.Models.Team.{Team}
use teams_mirror.Database.Records.Stored.{each_object}
use teams_mirror.Database.Loading.{LoadedTeam, LoadedChannel, ThreadPosition, Loading, load_thread}
use teams_mirror.Database.Save.{thread_fields}
use teams_mirror.Database.Load.Shapes.{
  each_object-steps, team_with, channel_with, team_entries, channel_entries, All-middle, behind,
  stage_before, stage_after, stage_done,
}
use teams_mirror.Database.Load.Channels.{ChannelsDistinct, with_channels}
use teams_mirror.Database.Load.Entries.{
  ThreadsDistinct, thread_entries, entries_of_channels, entries_of_threads, entries_before,
  thread_entries-append, entries_of_channels-append,
}
use teams_mirror.Database.Load.Threads.{
  ThreadIsPadded, with_threads_of, with_threads, threading_team, threading,
  load_thread-thread_fields,
}

abbrev pub thread_one : Channel → Thread → Loading → Loading
thread_one c th l = load_thread (thread_fields (Channel.get_uuid c) th) l

abbrev pub thread_all : Channel → Loading → Loading
thread_all c l = each_object (thread_one c) c.threads l

abbrev pub thread_team : Team → Loading → Loading
thread_team t l = each_object thread_all t.channels l

-- The indexes of the teams and the channels are complete.
abbrev pub indexed : List Team → List LoadedTeam → Map Bytes ThreadPosition → Loading
indexed teams ts m = record {
  loaded_teams = ts;
  team_indexes = team_entries 0 teams;
  channel_indexes = channel_entries 0 teams;
  thread_indexes = m;
}

-- A team with the given channels, among the others.
abbrev among_teams : List Team → Team → List Team → List LoadedChannel → List LoadedTeam
among_teams done t rest channels =
    map with_threads done
    ++ team_with (map view t.subscribed_user_uuids) channels t ∷ map with_channels rest

unfoldable pub threaded_team : List Team → List Team → Team → List Team → List Channel → Loading
threaded_team teams done t rest cs =
    indexed teams
      (among_teams done t rest
        (map with_threads_of cs ++ map (channel_with []) (behind cs t.channels)))
      (thread_entries 0 done ++ entries_of_channels (length done) 0 cs)

entries_channel :
    (done : List Team) (cs : List Channel) (c : Channel)
    → entries_before done cs c.threads
      ≡ thread_entries 0 done ++ entries_of_channels (length done) 0 (cs ++ c ∷ [])
unfolding entries_of_channels
entries_channel done cs c =
    let n = length done in
    append_assoc (thread_entries 0 done) (entries_of_channels n 0 cs)
      (entries_of_threads n (length cs) 0 c.threads)
    ∙ ap (λ m. thread_entries 0 done ++ m)
        (sym (
          entries_of_channels-append n 0 cs (c ∷ [])
          ∙ ap (λ k. entries_of_channels n 0 cs ++ entries_of_channels n k (c ∷ [])) (omega arith)
          ∙ ap (λ m. entries_of_channels n 0 cs ++ m)
              (append-nil (entries_of_threads n (length cs) 0 c.threads))))

thread_all-stage :
    (teams done : List Team) (t : Team) (rest : List Team) (cs : List Channel) (c : Channel)
    (more : List Channel)
    → ChannelsDistinct teams
    → ThreadsDistinct teams
    → All ThreadIsPadded c.threads
    → teams ≡ done ++ t ∷ rest
    → t.channels ≡ cs ++ c ∷ more
    → thread_all c (threaded_team teams done t rest cs)
      ≡ threaded_team teams done t rest (cs ++ c ∷ [])
unfolding threaded_team threading threading_team with_threads_of entries_of_threads
thread_all-stage teams done t rest cs c more once threads_once padded e f =
    ap₂ (λ xs m. thread_all c (indexed teams (among_teams done t rest xs) m))
      (stage_before with_threads_of (channel_with []) t.channels cs c more f)
      (sym (append-nil (thread_entries 0 done ++ entries_of_channels (length done) 0 cs)))
    ∙ each_object-steps (thread_one c) (λ ths. threading teams done cs ths c more t rest) c.threads
        (λ ths th others g.
          load_thread-thread_fields teams done t rest cs c more ths th others once threads_once
            (All-middle ThreadIsPadded ths th others (subst (All ThreadIsPadded) g padded)) e f g)
    ∙ ap₂ (λ xs m. indexed teams (among_teams done t rest xs) m)
        (stage_after with_threads_of (channel_with []) t.channels cs c more f)
        (entries_channel done cs c)

unfoldable pub threaded : List Team → List Team → Loading
threaded teams done =
    indexed teams (map with_threads done ++ map with_channels (behind done teams))
      (thread_entries 0 done)

unfoldable pub ChannelThreadsPadded : Channel → Type 0
ChannelThreadsPadded c = All ThreadIsPadded c.threads

entries_team :
    (done : List Team) (t : Team)
    → thread_entries 0 done ++ entries_of_channels (length done) 0 t.channels
      ≡ thread_entries 0 (done ++ t ∷ [])
unfolding thread_entries
entries_team done t = sym (
    thread_entries-append 0 done (t ∷ [])
    ∙ ap (λ k. thread_entries 0 done ++ thread_entries k (t ∷ [])) (omega arith)
    ∙ ap (λ m. thread_entries 0 done ++ m)
        (append-nil (entries_of_channels (length done) 0 t.channels)))

thread_team-stage :
    (teams done : List Team) (t : Team) (rest : List Team)
    → ChannelsDistinct teams
    → ThreadsDistinct teams
    → All ChannelThreadsPadded t.channels
    → teams ≡ done ++ t ∷ rest
    → thread_team t (threaded teams done) ≡ threaded teams (done ++ t ∷ [])
unfolding threaded threaded_team with_channels with_threads ChannelThreadsPadded entries_of_channels
thread_team-stage teams done t rest once threads_once padded e =
    ap₂ (λ xs m. thread_team t (indexed teams xs m))
      (stage_before with_threads with_channels teams done t rest e)
      (sym (append-nil (thread_entries 0 done)))
    ∙ each_object-steps thread_all (threaded_team teams done t rest) t.channels (λ cs c more f.
      thread_all-stage teams done t rest cs c more once threads_once
        (All-middle ChannelThreadsPadded cs c more (subst (All ChannelThreadsPadded) f padded)) e f)
    ∙ ap
        (λ xs.
          indexed teams (among_teams done t rest xs)
            (thread_entries 0 done ++ entries_of_channels (length done) 0 t.channels))
        (stage_done with_threads_of (channel_with []) t.channels)
    ∙ ap₂ (indexed teams) (stage_after with_threads with_channels teams done t rest e)
        (entries_team done t)

unfoldable pub ThreadsPadded : List Team → Type 0
ThreadsPadded teams = All (λ t. All ChannelThreadsPadded t.channels) teams

-- All threads of all channels of all teams, behind the channels.
pub thread_teams :
    (teams : List Team)
    → ChannelsDistinct teams
    → ThreadsDistinct teams
    → ThreadsPadded teams
    → each_object thread_team teams (indexed teams (map with_channels teams) [])
      ≡ indexed teams (map with_threads teams) (thread_entries 0 teams)
unfolding threaded thread_entries ThreadsPadded
thread_teams teams once threads_once padded =
    each_object-steps thread_team (threaded teams) teams (λ done t rest e.
      thread_team-stage teams done t rest once threads_once
        (All-middle (λ t. All ChannelThreadsPadded t.channels) done t rest
          (subst (All (λ t. All ChannelThreadsPadded t.channels)) e padded))
        e)
    ∙ ap (λ xs. indexed teams xs (thread_entries 0 teams))
        (stage_done with_threads with_channels teams)
