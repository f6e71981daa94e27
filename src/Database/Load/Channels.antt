-- ===== src/Database/Load/Channels.antt =====
-- The channels, loaded from what was saved (server/database/load/load.cpp, server/database/save/save.cpp).
use teams_mirror.Prelude.{
  suc, some, List, [], ◌∷◌, ◌++◌, ◌≡◌, refl, ◌∙◌, ap, sym, subst, map, All, length, append_assoc,
  append-nil, arith, bytes_eq,
}
use mathlib.Core.List.{map-append}
use mathlib.Core.Path.{ap₂}
use teams_mirror.Bytes.{Bytes, view}
use teams_mirror.Protocol.Limits.{uuid_length, max_name_length, max_description_length}
use teams_mirror.Map.{Map, find, KeysOnce}
use teams_mirror.Models.Channel.{Channel}
use teams_mirror.Models.Channel
use teams_mirror.Models.Team.{Team}
use teams_mirror.Models.Team
use teams_mirror.Database.Records.Stored.{each_object}
use teams_mirror.Database.Loading.{
  ChannelPosition, LoadedTeam, Loading, no_teams, load_channel, push_channel, channel_count,
}
use teams_mirror.Database.Save.{channel_fields}
use teams_mirror.Database.Load.Stored.{IsPadded}
use teams_mirror.Database.Load.Shapes.{
  each_object-steps, contains-before, find-middle, emplace-last, team_with, channel_with,
  team_entries, channel_entries, channel_entries_of, channel_entries-append,
  channel_entries_of-append, length-map, All-middle, behind, stage_before, stage_after, stage_done,
  change-stage,
}
use teams_mirror.Database.Load.Teams.{TeamsDistinct, find-team, subscribed}

unfoldable pub ChannelIsPadded : Channel → Type 0
ChannelIsPadded c =
    IsPadded uuid_length c.uuid
    × IsPadded max_name_length c.name
    × IsPadded max_description_length c.description

-- No two channels have the same identifier, of all teams.
unfoldable pub ChannelsDistinct : List Team → Type 0
ChannelsDistinct teams = KeysOnce (channel_entries 0 teams)

unfoldable pub with_channels : Team → LoadedTeam
with_channels t = team_with (map view t.subscribed_user_uuids) (map (channel_with []) t.channels) t

unfoldable pub channelling : List Team → List Team → List Channel → Team → List Team → Loading
channelling teams done cs t rest = record no_teams {
  loaded_teams =
      map with_channels done
      ++ team_with (map view t.subscribed_user_uuids) (map (channel_with []) cs) t
        ∷ map subscribed rest;
  team_indexes = team_entries 0 teams;
  channel_indexes = channel_entries 0 done ++ channel_entries_of (length done) 0 cs;
}

-- The entry of one of the channels.
pub channel_entry :
    (teams done : List Team) (t : Team) (rest : List Team) (cs : List Channel) (c : Channel)
    (more : List Channel)
    → teams ≡ done ++ t ∷ rest
    → t.channels ≡ cs ++ c ∷ more
    → channel_entries 0 teams
      ≡ (channel_entries 0 done ++ channel_entries_of (length done) 0 cs)
        ++ (Channel.get_uuid c, (length done, length cs))
          ∷ (channel_entries_of (length done) (suc (length cs)) more
              ++ channel_entries (suc (length done)) rest)
unfolding channel_entries channel_entries_of
channel_entry teams done t rest cs c more e f =
    let n = length done in
    let later = channel_entries (suc n) rest in
    ap (channel_entries 0) e
    ∙ channel_entries-append 0 done (t ∷ rest)
    ∙ ap (λ k. channel_entries 0 done ++ channel_entries k (t ∷ rest)) (omega arith)
    ∙ ap (λ ds. channel_entries 0 done ++ (channel_entries_of n 0 ds ++ later)) f
    ∙ ap (λ m. channel_entries 0 done ++ (m ++ later)) (channel_entries_of-append n 0 cs (c ∷ more))
    ∙ ap
        (λ k.
          channel_entries 0 done
          ++ ((channel_entries_of n 0 cs ++ channel_entries_of n k (c ∷ more)) ++ later))
        (omega arith)
    ∙ ap (λ m. channel_entries 0 done ++ m) (append_assoc (channel_entries_of n 0 cs) _ later)
    ∙ sym (append_assoc (channel_entries 0 done) (channel_entries_of n 0 cs) _)

count-middle :
    (before : List LoadedTeam) (x : LoadedTeam) (after : List LoadedTeam)
    → channel_count (length before) (before ++ x ∷ after) ≡ length x.channels
unfolding channel_count
count-middle [] x after = refl
count-middle (y ∷ before) x after = count-middle before x after

count_of_team :
    (done : List Team) (x : LoadedTeam) (after : List LoadedTeam)
    → channel_count (length done) (map with_channels done ++ x ∷ after) ≡ length x.channels
count_of_team done x after =
    ap (λ n. channel_count n (map with_channels done ++ x ∷ after))
      (sym (length-map with_channels done))
    ∙ count-middle (map with_channels done) x after

entries_last :
    (done : List Team) (cs : List Channel) (c : Channel)
    → (channel_entries 0 done ++ channel_entries_of (length done) 0 cs)
        ++ (Channel.get_uuid c, (length done, length cs)) ∷ []
      ≡ channel_entries 0 done ++ channel_entries_of (length done) 0 (cs ++ c ∷ [])
unfolding channel_entries_of
entries_last done cs c =
    append_assoc (channel_entries 0 done) (channel_entries_of (length done) 0 cs) _
    ∙ ap (λ m. channel_entries 0 done ++ m)
        (sym (
          channel_entries_of-append (length done) 0 cs (c ∷ [])
          ∙ ap
              (λ k.
                channel_entries_of (length done) 0 cs
                ++ channel_entries_of (length done) k (c ∷ []))
              (omega arith)))

load_channel-channel_fields :
    (teams done : List Team) (t : Team) (rest : List Team) (cs : List Channel) (c : Channel)
    (more : List Channel)
    → TeamsDistinct teams
    → ChannelsDistinct teams
    → ChannelIsPadded c
    → teams ≡ done ++ t ∷ rest
    → t.channels ≡ cs ++ c ∷ more
    → load_channel (channel_fields (Team.get_uuid t) c) (channelling teams done cs t rest)
      ≡ channelling teams done (cs ++ c ∷ []) t rest
unfolding load_channel channel_fields channelling ChannelsDistinct ChannelIsPadded IsPadded
    Channel.make push_channel team_with channel_with
load_channel-channel_fields teams done t rest cs c more once channels_once padded e f =
    let new =
      contains-before _ _ _ _
        (subst KeysOnce (channel_entry teams done t rest cs c more e f) channels_once) in
    let users = map view t.subscribed_user_uuids in
    let loaded = team_with users (map (channel_with []) cs) t in
    let placed =
      change-stage with_channels subscribed done (push_channel (channel_with [] c)) loaded rest
      ∙ ap (λ xs. map with_channels done ++ team_with users xs t ∷ map subscribed rest)
          (sym (map-append (channel_with []) cs (c ∷ []))) in
    let entered =
      emplace-last (channel_entries 0 done ++ channel_entries_of (length done) 0 cs)
        (Channel.get_uuid c)
        (
          length done,
          channel_count (length done) (map with_channels done ++ loaded ∷ map subscribed rest),
        )
        new
      ∙ ap
          (λ k.
            (channel_entries 0 done ++ channel_entries_of (length done) 0 cs)
            ++ (Channel.get_uuid c, (length done, k)) ∷ [])
          (count_of_team done loaded (map subscribed rest) ∙ length-map (channel_with []) cs)
      ∙ entries_last done cs c in
    rw (new, find-team teams done t rest once e, load_channel, padded.0, padded.1, padded.2)
      (λ i. record no_teams {
        loaded_teams = placed i;
        team_indexes = team_entries 0 teams;
        channel_indexes = entered i;
      })

pub find-channel :
    (teams done : List Team) (t : Team) (rest : List Team) (cs : List Channel) (c : Channel)
    (more : List Channel)
    → ChannelsDistinct teams
    → teams ≡ done ++ t ∷ rest
    → t.channels ≡ cs ++ c ∷ more
    → find (Channel.get_uuid c) (channel_entries 0 teams) ≡ some (length done, length cs)
unfolding ChannelsDistinct
find-channel teams done t rest cs c more once e f =
    let split = channel_entry teams done t rest cs c more e f in
    ap (find (Channel.get_uuid c)) split ∙ find-middle _ _ _ _ (subst KeysOnce split once)

-- The channels of a team, one after the other.
abbrev pub load_one : Team → Channel → Loading → Loading
load_one t c l = load_channel (channel_fields (Team.get_uuid t) c) l

abbrev pub load_all : Team → Loading → Loading
load_all t l = each_object (load_one t) t.channels l

unfoldable pub channelled : List Team → List Team → Loading
channelled teams done = record no_teams {
  loaded_teams = map with_channels done ++ map subscribed (behind done teams);
  team_indexes = team_entries 0 teams;
  channel_indexes = channel_entries 0 done;
}

entries_team :
    (done : List Team) (t : Team)
    → channel_entries 0 done ++ channel_entries_of (length done) 0 t.channels
      ≡ channel_entries 0 (done ++ t ∷ [])
unfolding channel_entries
entries_team done t = sym (
    channel_entries-append 0 done (t ∷ [])
    ∙ ap (λ k. channel_entries 0 done ++ channel_entries k (t ∷ [])) (omega arith)
    ∙ ap (λ m. channel_entries 0 done ++ m)
        (append-nil (channel_entries_of (length done) 0 t.channels)))

load_all-stage :
    (teams done : List Team) (t : Team) (rest : List Team)
    → TeamsDistinct teams
    → ChannelsDistinct teams
    → All ChannelIsPadded t.channels
    → teams ≡ done ++ t ∷ rest
    → load_all t (channelled teams done) ≡ channelled teams (done ++ t ∷ [])
unfolding channelled channelling with_channels channel_entries_of subscribed
load_all-stage teams done t rest once channels_once padded e =
    let into = λ (ts : List LoadedTeam) (m : Map Bytes ChannelPosition). record no_teams {
      loaded_teams = ts;
      team_indexes = team_entries 0 teams;
      channel_indexes = m;
    } in
    ap₂ (λ ts m. load_all t (into ts m)) (stage_before with_channels subscribed teams done t rest e)
      (sym (append-nil (channel_entries 0 done)))
    ∙ each_object-steps (load_one t) (λ cs. channelling teams done cs t rest) t.channels
        (λ cs c more f.
          load_channel-channel_fields teams done t rest cs c more once channels_once
            (All-middle ChannelIsPadded cs c more (subst (All ChannelIsPadded) f padded)) e f)
    ∙ ap₂ into (stage_after with_channels subscribed teams done t rest e) (entries_team done t)

unfoldable pub ChannelsPadded : List Team → Type 0
ChannelsPadded teams = All (λ t. All ChannelIsPadded t.channels) teams

-- All channels of all teams, behind the subscriptions.
pub load_channels_of_teams :
    (teams : List Team)
    → TeamsDistinct teams
    → ChannelsDistinct teams
    → ChannelsPadded teams
    → each_object load_all teams (record no_teams {
      loaded_teams = map subscribed teams;
      team_indexes = team_entries 0 teams;
    })
      ≡ record no_teams {
        loaded_teams = map with_channels teams;
        team_indexes = team_entries 0 teams;
        channel_indexes = channel_entries 0 teams;
      }
unfolding channelled channel_entries ChannelsPadded
load_channels_of_teams teams once channels_once padded =
    each_object-steps load_all (channelled teams) teams (λ done t rest e.
      load_all-stage teams done t rest once channels_once
        (All-middle (λ t. All ChannelIsPadded t.channels) done t rest
          (subst (All (λ t. All ChannelIsPadded t.channels)) e padded))
        e)
    ∙ ap
        (λ (ts : List LoadedTeam). record no_teams {
          loaded_teams = ts;
          team_indexes = team_entries 0 teams;
          channel_indexes = channel_entries 0 teams;
        })
        (stage_done with_channels subscribed teams)
