-- ===== src/Database/Load/Teams.antt =====
-- The teams and their subscriptions, loaded from what was saved (server/database/load/load.cpp,
-- server/database/save/save.cpp).
use teams_mirror.Prelude.{
  some, suc, false, List, [], ◌∷◌, ◌++◌, ◌≡◌, refl, ◌∙◌, ap, sym, subst, map, All, length, arith,
  bytes_eq,
}
use mathlib.Core.List.{map-append}
use teams_mirror.Bytes.{Bytes, view}
use teams_mirror.Protocol.Limits.{uuid_length, max_name_length, max_description_length}
use teams_mirror.Map.{find, contains, KeysOnce}
use teams_mirror.Models.Team.{Team}
use teams_mirror.Models.Team
use teams_mirror.Database.Records.Stored.{each_object}
use teams_mirror.Database.Loading.{
  LoadedTeam, Loading, no_teams, load_team, load_subscription, push_subscription,
}
use teams_mirror.Database.Save.{team_fields, subscription_fields}
use teams_mirror.Database.Load.Stored.{IsPadded}
use teams_mirror.Database.Load.Shapes.{
  each_object-steps, contains-before, find-middle, emplace-last, team_with, team_entries,
  team_entries-append, length-map, All-middle, behind, stage_before, stage_after, stage_done,
  change-stage,
}

-- The arrays of a team.
unfoldable pub TeamIsPadded : Team → Type 0
TeamIsPadded t =
    IsPadded uuid_length t.uuid
    × IsPadded max_name_length t.name
    × IsPadded max_description_length t.description

-- No two teams have the same identifier.
unfoldable pub TeamsDistinct : List Team → Type 0
TeamsDistinct teams = KeysOnce (team_entries 0 teams)

-- After loadTeams.
unfoldable pub teams_loaded : List Team → Loading
teams_loaded done = record no_teams {
  loaded_teams = map (team_with [] []) done;
  team_indexes = team_entries 0 done;
}

-- The entry of one of the teams.
pub team_entry :
    (teams done : List Team) (t : Team) (rest : List Team)
    → teams ≡ done ++ t ∷ rest
    → team_entries 0 teams
      ≡ team_entries 0 done
        ++ (Team.get_uuid t, length done) ∷ team_entries (suc (length done)) rest
unfolding team_entries
team_entry teams done t rest e =
    ap (team_entries 0) e
    ∙ team_entries-append 0 done (t ∷ rest)
    ∙ ap (λ k. team_entries 0 done ++ team_entries k (t ∷ rest)) (omega arith)

load_team-team_fields :
    (teams done : List Team) (t : Team) (rest : List Team)
    → TeamsDistinct teams
    → TeamIsPadded t
    → teams ≡ done ++ t ∷ rest
    → load_team (team_fields t) (teams_loaded done) ≡ teams_loaded (done ++ t ∷ [])
unfolding load_team team_fields teams_loaded TeamsDistinct TeamIsPadded IsPadded team_with
    team_entries Team.make
load_team-team_fields teams done t rest once padded e =
    let new : contains (Team.get_uuid t) (team_entries 0 done) ≡ false =
      contains-before _ _ _ _ (subst KeysOnce (team_entry teams done t rest e) once) in
    let entered =
      emplace-last (team_entries 0 done) (Team.get_uuid t) (length (map (team_with [] []) done)) new
      ∙ ap (λ n. team_entries 0 done ++ (Team.get_uuid t, n) ∷ [])
          (length-map (team_with [] []) done)
      ∙ sym (team_entry (done ++ t ∷ []) done t [] refl) in
    let pushed = sym (map-append (team_with [] []) done (t ∷ [])) in
    rw (new, padded.0, padded.1, padded.2)
      (λ i. record no_teams { loaded_teams = pushed i; team_indexes = entered i })

pub load_teams-team_fields :
    (teams : List Team)
    → TeamsDistinct teams
    → All TeamIsPadded teams
    → each_object (λ t. load_team (team_fields t)) teams no_teams ≡ teams_loaded teams
unfolding teams_loaded team_entries
load_teams-team_fields teams once padded =
    each_object-steps (λ t. load_team (team_fields t)) teams_loaded teams
      (λ done t rest e.
        load_team-team_fields teams done t rest once
          (All-middle TeamIsPadded done t rest (subst (All TeamIsPadded) e padded)) e)

pub find-team :
    (teams done : List Team) (t : Team) (rest : List Team)
    → TeamsDistinct teams
    → teams ≡ done ++ t ∷ rest
    → find (Team.get_uuid t) (team_entries 0 teams) ≡ some (length done)
unfolding TeamsDistinct
find-team teams done t rest once e =
    let split = team_entry teams done t rest e in
    ap (find (Team.get_uuid t)) split ∙ find-middle _ _ _ _ (subst KeysOnce split once)

-- After the subscriptions of the first teams, and while those of the next one are loaded.
unfoldable pub subscribed : Team → LoadedTeam
subscribed t = team_with (map view t.subscribed_user_uuids) [] t

unfoldable pub subscribing : List Team → List Team → List Bytes → Team → List Team → Loading
subscribing teams done users t rest = record no_teams {
  loaded_teams =
      map subscribed done ++ team_with (map view users) [] t ∷ map (team_with [] []) rest;
  team_indexes = team_entries 0 teams;
}

load_subscription-subscription_fields :
    (teams done : List Team) (users : List Bytes) (stored : Bytes) (t : Team) (rest : List Team)
    → TeamsDistinct teams
    → teams ≡ done ++ t ∷ rest
    → load_subscription
        (subscription_fields (Team.get_uuid t) stored)
        (subscribing teams done users t rest)
      ≡ subscribing teams done (users ++ stored ∷ []) t rest
unfolding load_subscription subscription_fields subscribing TeamsDistinct push_subscription
    team_with
load_subscription-subscription_fields teams done users stored t rest once e =
    let before = map view users in
    let placed =
      change-stage subscribed (team_with [] []) done (push_subscription (view stored))
        (team_with before [] t) rest
      ∙ ap (λ us. map subscribed done ++ team_with us [] t ∷ map (team_with [] []) rest)
          (sym (map-append view users (stored ∷ []))) in
    rw (find-team teams done t rest once e, load_subscription)
      (λ i. record no_teams { loaded_teams = placed i; team_indexes = team_entries 0 teams })

unfoldable pub subscribed_teams : List Team → List Team → Loading
subscribed_teams teams done = record no_teams {
  loaded_teams = map subscribed done ++ map (team_with [] []) (behind done teams);
  team_indexes = team_entries 0 teams;
}

-- The subscriptions of a team, one after the other.
abbrev pub subscribe_one : Team → Bytes → Loading → Loading
subscribe_one t stored l = load_subscription (subscription_fields (Team.get_uuid t) stored) l

abbrev pub subscribe_all : Team → Loading → Loading
subscribe_all t l = each_object (subscribe_one t) t.subscribed_user_uuids l

subscribe_all-stage :
    (teams done : List Team) (t : Team) (rest : List Team)
    → TeamsDistinct teams
    → teams ≡ done ++ t ∷ rest
    → subscribe_all t (subscribed_teams teams done) ≡ subscribed_teams teams (done ++ t ∷ [])
unfolding subscribed_teams subscribing subscribed
subscribe_all-stage teams done t rest once e =
    let into = λ (ts : List LoadedTeam). record no_teams {
      loaded_teams = ts;
      team_indexes = team_entries 0 teams;
    } in
    ap (λ ts. subscribe_all t (into ts))
      (stage_before subscribed (team_with [] []) teams done t rest e)
    ∙ each_object-steps (subscribe_one t) (λ users. subscribing teams done users t rest)
        t.subscribed_user_uuids
        (λ users stored more _.
          load_subscription-subscription_fields teams done users stored t rest once e)
    ∙ ap into (stage_after subscribed (team_with [] []) teams done t rest e)

pub subscribe_teams :
    (teams : List Team)
    → TeamsDistinct teams
    → each_object subscribe_all teams (teams_loaded teams)
      ≡ record no_teams { loaded_teams = map subscribed teams; team_indexes = team_entries 0 teams }
unfolding subscribed_teams teams_loaded
subscribe_teams teams once =
    each_object-steps subscribe_all (subscribed_teams teams) teams
      (λ done t rest e. subscribe_all-stage teams done t rest once e)
    ∙ ap
        (λ (ts : List LoadedTeam). record no_teams {
          loaded_teams = ts;
          team_indexes = team_entries 0 teams;
        })
        (stage_done subscribed (team_with [] []) teams)
