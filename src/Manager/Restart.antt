-- ===== src/Manager/Restart.antt =====
-- What a run of the server (server/core/server_manager/server_manager.cpp) finds of the run before.
use teams_mirror.Prelude.{ℕ, ◌≡◌, refl, ◌∙◌, ap, sym, Bool, true, List, [], ◌∷◌, map, All}
use teams_mirror.Models.User.{User, reset_logged_in}
use teams_mirror.Models.Team.{Team}
use teams_mirror.Models.Message.{Message}
use teams_mirror.Server.{LogEvent}
use teams_mirror.Database.Text.Fields.{IsDelimiter}
use teams_mirror.Database.Disk.{
  SaveFile, users_file, teams_file, team_subscriptions_file, channels_file, threads_file,
  messages_file, private_messages_file, Disk, Access,
}
use teams_mirror.Database.Save.{save}
use teams_mirror.Database.Load.{load}
use teams_mirror.Database.Load.Stored.{UserIsSaved, MessageIsSaved, reloaded}
use teams_mirror.Database.Load.Saved.{TeamIsSaved, AllDistinct}
use teams_mirror.Database.Load.Whole.{load-save}
use teams_mirror.Manager.Rounds.{World}
use teams_mirror.Manager.Loop.{shut, shut_down, signalled, reset_each, started}

-- A user with no session, and otherwise the same.
abbrev pub logged_out : User → User
logged_out user = record { uuid = user.uuid; name = user.name; is_logged_in = 0 }

reset_each-reloaded : (users : List User) → reset_each (map reloaded users) ≡ map logged_out users
unfolding reset_each reset_logged_in reloaded
reset_each-reloaded [] = refl
reset_each-reloaded (user ∷ users) = ap (◌∷◌ (logged_out user)) (reset_each-reloaded users)

save_succeeds :
    (access : Access) (d : ℕ) (users : List User) (teams : List Team) (messages : List Message)
    (disk : Disk)
    → access.directory ≡ true
    → ((file : SaveFile) → access.writable file ≡ true)
    → (save access d users teams messages disk).0 ≡ true
unfolding save
save_succeeds access d users teams messages disk open_ok all_ok =
    rw
      (
        open_ok,
        all_ok users_file,
        all_ok teams_file,
        all_ok team_subscriptions_file,
        all_ok channels_file,
        all_ok threads_file,
        all_ok messages_file,
        all_ok private_messages_file,
      )
      refl

shut_inj :
    (b c : Bool) (x y : Disk) (k l : List LogEvent) → shut b x k ≡ shut c y l → (b ≡ c) × (x ≡ y)
shut_inj b c x y k l h = (cc, cc)

-- If the poll loop ends by the signal and every file can be written, all is saved; and the next run starts with the same
-- users in their order, each with a counter of zero sessions and otherwise the same, with the same teams in their order and all that they hold, and with the
-- same private messages in their order. The delimiter is no backslash, no line feed and not the letter n or r; the arrays
-- hold NULs only behind their strings; the times fit in a long long; teams, channels, threads, replies, subscriptions and
-- private messages have identifiers, private messages authors, and replies no receiver; and no two teams, no two channels and no two threads
-- have the same identifier.
pub started-shut_down :
    (access : Access) (d : ℕ) (disk disk' : Disk) (w : World) (saved_all : Bool)
    (logs : List LogEvent)
    → access.directory ≡ true
    → ((file : SaveFile) → access.writable file ≡ true)
    → IsDelimiter d
    → All UserIsSaved w.server.users
    → All TeamIsSaved w.server.teams
    → AllDistinct w.server.teams
    → All MessageIsSaved w.server.messages
    → shut_down access d disk (signalled w) ≡ shut saved_all disk' logs
    → let loaded = load d disk' [] [] [] in
      let next = (started loaded.1 loaded.2 loaded.3).server in
      (saved_all ≡ true)
      × (loaded.0 ≡ true)
      × (next.users ≡ map logged_out w.server.users)
      × (next.teams ≡ w.server.teams)
      × (next.messages ≡ w.server.messages)
unfolding shut_down started
started-shut_down access d disk disk' w saved_all logs open_ok all_ok ok hu ht once hm h =
    let s = w.server in
    let (whole, same) = shut_inj _ _ _ _ _ _ h in
    let (was, users, teams, messages) =
      load-save access d s.users s.teams s.messages disk [] [] [] open_ok all_ok ok hu ht once hm in
    (
      sym whole ∙ save_succeeds access d s.users s.teams s.messages disk open_ok all_ok,
      ap (λ x. (load d x [] [] []).0) (sym same) ∙ was,
      ap (λ x. reset_each (load d x [] [] []).1) (sym same)
          ∙ ap reset_each users
          ∙ reset_each-reloaded s.users,
      ap (λ x. (load d x [] [] []).2) (sym same) ∙ teams,
      ap (λ x. (load d x [] [] []).3) (sym same) ∙ messages,
    )
