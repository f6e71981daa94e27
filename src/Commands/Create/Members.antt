-- ===== src/Commands/Create/Members.antt =====
-- Who may create what: how a creation request may change the teams.
use teams_mirror.Prelude.{
  suc, ◌≡◌, refl, ◌∙◌, ap, sym, Bool, true, false, Option, none, some, List, [], ◌∷◌, ◌++◌, arith,
  if◌then◌else◌, same, any_of, update_if, is_empty, not, ◌&&◌, ◌||◌, some_inj,
}
use teams_mirror.Prelude.Int.{ℤ}
use teams_mirror.Bytes.{Bytes}
use teams_mirror.Protocol.{StatusCode, err_bad_request}
use teams_mirror.Clients.{get_context_team_uuid, get_context_channel_uuid, get_context_thread_uuid}
use teams_mirror.Server.{Env, Server, Request, queue_packet, queue_status, queue_reply}
use teams_mirror.Server.Queueing.{queue_each_lem}
use teams_mirror.Server.Uuid.{generate_uuid}
use teams_mirror.Models.User.{User}
use teams_mirror.Models.User
use teams_mirror.Models.Message
use teams_mirror.Models.Thread.{Thread, add_reply}
use teams_mirror.Models.Thread
use teams_mirror.Models.Channel.{Channel, add_thread}
use teams_mirror.Models.Channel
use teams_mirror.Models.Team.{Team, is_user_subscribed, add_channel}
use teams_mirror.Models.Team
use teams_mirror.Commands.Lookup.{team_has_uuid, find_team_by_uuid, get_authenticated_user}
use teams_mirror.Commands.CreateAnswers.{
  announce_team, announce_channel, announce_thread, announce_reply, queue_packet_to_loged_user,
  queue_packet_to_team_subscribers,
}
use teams_mirror.Commands.Create.{
  new_team, store_team, change_team, change_channel, change_thread, handle_create_team,
  handle_create_channel, handle_create_thread, handle_create_reply, create_in_context,
  handle_create_command,
}
use teams_mirror.Commands.Create.Outcome.{
  answered, exhausted, created, handle_create_team-outcome, handle_create_channel-outcome,
  handle_create_thread-outcome, handle_create_reply-outcome,
}

module _ (r : Request) (s : Server) where
  teams-announce_team : (u : User) (t : Team) → (announce_team r u t s).teams ≡ s.teams
  unfolding announce_team queue_reply queue_packet queue_packet_to_loged_user
  teams-announce_team u t = rw queue_each_lem refl

  teams-announce_channel :
      (t : Team) (uuid name description : Bytes)
      → (announce_channel r t uuid name description s).teams ≡ s.teams
  unfolding announce_channel queue_reply queue_packet queue_packet_to_team_subscribers
  teams-announce_channel t uuid name description = rw queue_each_lem refl

  teams-announce_thread :
      (u : User) (t : Team) (c : Channel) (uuid : Bytes) (now : ℤ) (title body : Bytes)
      → (announce_thread r u t c uuid now title body s).teams ≡ s.teams
  unfolding announce_thread queue_reply queue_packet queue_packet_to_team_subscribers
  teams-announce_thread u t c uuid now title body = rw queue_each_lem refl

  teams-announce_reply :
      (u : User) (t : Team) (th : Thread) (now : ℤ) (body : Bytes)
      → (announce_reply r u t th now body s).teams ≡ s.teams
  unfolding announce_reply queue_reply queue_packet queue_packet_to_team_subscribers
  teams-announce_reply u t th now body = rw queue_each_lem refl

  -- What a request of a user may have done to the teams: nothing; a team is added, whose name no team had; or
  -- the team of the client's context was changed, of which the user is a member.
  pub data Permitted (u : User) (teams : List Team) : Type 0 where
    kept : teams ≡ s.teams → Permitted u teams
    added :
        (name description uuid : Bytes)
        → any_of (λ team. same (Team.get_name team) name) s.teams ≡ false
        → teams ≡ s.teams ++ new_team uuid name description u ∷ []
        → Permitted u teams
    changed :
        (team : Team) (change : Team → Team)
        → find_team_by_uuid (get_context_team_uuid r.client_fd s.clients) s.teams ≡ some team
        → is_user_subscribed (User.get_uuid u) team ≡ true
        → teams
          ≡ update_if (team_has_uuid (get_context_team_uuid r.client_fd s.clients)) change s.teams
        → Permitted u teams

  result_teams :
      (out s' : Server) (result : Option Server) (teams : List Team)
      → result ≡ some out
      → result ≡ some s'
      → s'.teams ≡ teams
      → out.teams ≡ teams
  result_teams out s' result teams h e k = ap (λ x. x.teams) (some_inj (sym h ∙ e)) ∙ k

  status_kept :
      (out : Server) (result : Option Server) (status : StatusCode)
      → result ≡ some out
      → result ≡ some (queue_status r status s)
      → out.teams ≡ s.teams
  unfolding queue_status queue_packet
  status_kept out result status h e =
      result_teams out (queue_status r status s) result s.teams h e refl

  none_result : (out : Server) (result : Option Server) → result ≡ some out → result ≡ none → ⊥
  none_result out result h e = ground arith

module _ (env : Env) (r : Request) (u : User) (s out : Server) where
  team-Permitted : handle_create_team env r u s ≡ some out → Permitted r s u out.teams
  team-Permitted h = elim (handle_create_team-outcome env r u s) [
    | answered status e ↦ kept (status_kept r s out _ status h e)
    | exhausted e ↦ absurd (none_result r s out _ h e)
    | created name description uuid draws p f g e ↦ added name description uuid f (
        result_teams r s out _ _ _ h e
          (teams-announce_team r (store_team (new_team uuid name description u) draws s) u _))
  ]

  channel-Permitted : handle_create_channel env r u s ≡ some out → Permitted r s u out.teams
  unfolding change_team
  channel-Permitted h = elim (handle_create_channel-outcome env r u s) [
    | answered status e ↦ kept (status_kept r s out _ status h e)
    | exhausted e ↦ absurd (none_result r s out _ h e)
    | created name description uuid draws team p f m t g e ↦
        changed team (add_channel (Channel.make uuid name description)) f m (
          result_teams r s out _ _ _ h e (
            teams-announce_channel r
              (change_team (get_context_team_uuid r.client_fd s.clients)
                (add_channel (Channel.make uuid name description)) (record s { draws = draws }))
              _ _ _ _))
  ]

  thread-Permitted : handle_create_thread env r u s ≡ some out → Permitted r s u out.teams
  unfolding change_team
  thread-Permitted h = elim (handle_create_thread-outcome env r u s) [
    | answered status e ↦ kept (status_kept r s out _ status h e)
    | exhausted e ↦ absurd (none_result r s out _ h e)
    | created title body uuid draws team channel p c t g e ↦
        changed team
          (change_channel (get_context_channel_uuid r.client_fd s.clients)
            (add_thread (Thread.make uuid (User.get_uuid u) (env.time s.clock_reads) title body)))
          c.of_team c.member
          (result_teams r s out _ _ _ h e (
            teams-announce_thread r
              (change_team (get_context_team_uuid r.client_fd s.clients)
                (change_channel (get_context_channel_uuid r.client_fd s.clients) (
                  add_thread
                    (Thread.make uuid (User.get_uuid u) (env.time s.clock_reads) title body)))
                (record s { draws = draws; clock_reads = suc s.clock_reads }))
              u _ _ _ _ _ _))
  ]

  reply-Permitted : some (handle_create_reply env r u s) ≡ some out → Permitted r s u out.teams
  unfolding change_team
  reply-Permitted h = elim (handle_create_reply-outcome env r u s) [
    | answered status e ↦ kept (status_kept r s out _ status h (ap some e))
    | created body team channel thread p c g e ↦
        changed team
          (change_channel (get_context_channel_uuid r.client_fd s.clients) (
            change_thread (get_context_thread_uuid r.client_fd s.clients) (
              add_reply (
                Message.make (generate_uuid env.draw s.draws).0 (User.get_uuid u)
                  (env.time s.clock_reads) body []))))
          c.of_team c.member
          (result_teams r s out _ _ _ h (ap some e) (
            teams-announce_reply r
              (change_team (get_context_team_uuid r.client_fd s.clients)
                (change_channel (get_context_channel_uuid r.client_fd s.clients) (
                  change_thread (get_context_thread_uuid r.client_fd s.clients) (
                    add_reply (
                      Message.make (generate_uuid env.draw s.draws).0 (User.get_uuid u)
                        (env.time s.clock_reads) body []))))
                (record s {
                  draws = (generate_uuid env.draw s.draws).1;
                  clock_reads = suc s.clock_reads;
                }))
              u _ _ _ _))
  ]

  if_Permitted :
      (b : Bool) (x y : Option Server)
      → (x ≡ some out → Permitted r s u out.teams)
      → (y ≡ some out → Permitted r s u out.teams)
      → (if b then x else y) ≡ some out
      → Permitted r s u out.teams
  if_Permitted true x y hx hy e = hx e
  if_Permitted false x y hx hy e = hy e

  in_context-Permitted : create_in_context env r u s ≡ some out → Permitted r s u out.teams
  unfolding create_in_context
  in_context-Permitted h =
      let no_team = is_empty (get_context_team_uuid r.client_fd s.clients) in
      let no_channel = is_empty (get_context_channel_uuid r.client_fd s.clients) in
      let no_thread = is_empty (get_context_thread_uuid r.client_fd s.clients) in
      if_Permitted (no_team && (not no_channel || not no_thread)) _ _ bad
        (if_Permitted (no_channel && not no_thread) _ _ bad (
          if_Permitted no_team _ _ team-Permitted (
            if_Permitted no_channel _ _ channel-Permitted
              (if_Permitted no_thread _ _ thread-Permitted reply-Permitted))))
        h
    where
      bad : some (queue_status r err_bad_request s) ≡ some out → Permitted r s u out.teams
      bad e = kept (status_kept r s out _ err_bad_request e refl)

-- A creation request of a client that is logged in, if it gives a result, changes the teams in one of three ways at
-- most: a team is added under a name that no team had; or the team of the client's context, of which the user is
-- a member, is changed; or nothing is.
pub handle_create-Permitted :
    (env : Env) (r : Request) (u : User) (s out : Server)
    → get_authenticated_user r s ≡ some u
    → handle_create_command env r s ≡ some out
    → Permitted r s u out.teams
unfolding handle_create_command
handle_create-Permitted env r u s out logged h =
    in_context-Permitted env r u s out (rw (logged, handle_create_command) at h)
