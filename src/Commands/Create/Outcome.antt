-- ===== src/Commands/Create/Outcome.antt =====
-- What a creation request can come to: a status, an object that is made under the conditions of the handler,
-- or, where the search for an identifier ran out of attempts, nothing.
use teams_mirror.Prelude.{
  ℕ, suc, ◌≡◌, refl, Bool, true, false, not, Option, none, some, [], arith, same, any_of,
  Option-cases, Bool-cases, inl, inr,
}
use teams_mirror.Bytes.{Bytes}
use teams_mirror.Protocol.{StatusCode}
use teams_mirror.Clients.{get_context_team_uuid, get_context_channel_uuid, get_context_thread_uuid}
use teams_mirror.Server.{Env, Server, Request, queue_status}
use teams_mirror.Server.Uuid.{generate_uuid}
use teams_mirror.Models.User.{User}
use teams_mirror.Models.User
use teams_mirror.Models.Message
use teams_mirror.Models.Thread.{Thread, add_reply}
use teams_mirror.Models.Thread
use teams_mirror.Models.Channel.{Channel, add_thread}
use teams_mirror.Models.Channel
use teams_mirror.Models.Team.{Team, is_user_subscribed, add_channel}
use teams_mirror.Models.Team
use teams_mirror.Commands.Lookup.{find_team_by_uuid, find_channel_by_uuid, find_thread_by_uuid}
use teams_mirror.Commands.CreateRequest.{
  parse_create_team_payload, parse_create_channel_payload, parse_create_thread_payload,
  parse_create_reply_payload,
}
use teams_mirror.Commands.Create.{
  new_team, store_team, handle_create_team, handle_create_channel, create_thread_in,
  handle_create_thread, create_reply_in, handle_create_reply, change_team, change_channel,
  change_thread, resolve_context_team_channel, Resolved, found, refused,
}
use teams_mirror.Commands.CreateAnswers.{
  announce_team, announce_channel, announce_thread, announce_reply, generate_unique_team_uuid,
  generate_unique_channel_uuid, generate_unique_thread_uuid,
}

not-true : {b : Bool} → not b ≡ true → b ≡ false
not-true {b = b} h = ground arith

not-false : {b : Bool} → not b ≡ false → b ≡ true
not-false {b = b} h = ground arith

module _ (env : Env) (r : Request) (u : User) (s : Server) where
  pub data TeamOutcome (result : Option Server) : Type 0 where
    answered : (status : StatusCode) → result ≡ some (queue_status r status s) → TeamOutcome result
    exhausted : result ≡ none → TeamOutcome result
    created :
        (name description uuid : Bytes) (draws : ℕ)
        → parse_create_team_payload r ≡ some (name, description)
        → any_of (λ team. same (Team.get_name team) name) s.teams ≡ false
        → generate_unique_team_uuid env s ≡ some (uuid, draws)
        → result
          ≡ some (
              announce_team r u
                (new_team uuid name description u)
                (store_team (new_team uuid name description u) draws s))
        → TeamOutcome result

  pub handle_create_team-outcome : TeamOutcome (handle_create_team env r u s)
  unfolding handle_create_team
  handle_create_team-outcome = elim (Option-cases (parse_create_team_payload r)) [
    | inl e ↦ rw (e, handle_create_team) (answered _ refl)
    | inr ((name, description), e) ↦
        rw (e, handle_create_team)
          (elim (Bool-cases (any_of (λ team. same (Team.get_name team) name) s.teams)) [
            | inl t ↦ rw t (answered _ refl)
            | inr t ↦ rw t (elim (Option-cases (generate_unique_team_uuid env s)) [
              | inl g ↦ rw g (exhausted refl)
              | inr ((uuid, draws), g) ↦ rw g (created name description uuid draws e t g refl)
            ])
          ])
  ]

  pub data ChannelOutcome (result : Option Server) : Type 0 where
    answered :
        (status : StatusCode) → result ≡ some (queue_status r status s) → ChannelOutcome result
    exhausted : result ≡ none → ChannelOutcome result
    created :
        (name description uuid : Bytes) (draws : ℕ) (team : Team)
        → parse_create_channel_payload r ≡ some (name, description)
        → find_team_by_uuid (get_context_team_uuid r.client_fd s.clients) s.teams ≡ some team
        → is_user_subscribed (User.get_uuid u) team ≡ true
        → any_of (λ channel. same (Channel.get_name channel) name) team.channels ≡ false
        → generate_unique_channel_uuid env s ≡ some (uuid, draws)
        → result
          ≡ some (
              announce_channel r
                (add_channel (Channel.make uuid name description) team)
                uuid
                name
                description
                (change_team
                  (get_context_team_uuid r.client_fd s.clients)
                  (add_channel (Channel.make uuid name description))
                  (record s { draws = draws })))
        → ChannelOutcome result

  pub handle_create_channel-outcome : ChannelOutcome (handle_create_channel env r u s)
  unfolding handle_create_channel
  handle_create_channel-outcome = elim (Option-cases (parse_create_channel_payload r)) [
    | inl e ↦ rw (e, handle_create_channel) (answered _ refl)
    | inr ((name, description), e) ↦
        rw (e, handle_create_channel)
          (elim (Option-cases
            (find_team_by_uuid (get_context_team_uuid r.client_fd s.clients) s.teams)) [
              | inl f ↦ rw f (answered _ refl)
              | inr (team, f) ↦
                  rw f (elim (Bool-cases (not (is_user_subscribed (User.get_uuid u) team))) [
                    | inl m ↦ rw m (answered _ refl)
                    | inr m ↦
                        rw m
                          (elim (Bool-cases (
                            any_of (λ channel. same (Channel.get_name channel) name)
                              team.channels)) [
                                | inl t ↦ rw t (answered _ refl)
                                | inr t ↦
                                    rw t (elim (Option-cases (generate_unique_channel_uuid env s)) [
                                      | inl g ↦ rw g (exhausted refl)
                                      | inr ((uuid, draws), g) ↦ rw g (
                                          created name description uuid draws team e f (not-false m)
                                            t g refl)
                                    ])
                              ])
                  ])
            ])
  ]

  -- The context of the client names a team of which the user is a member, and a channel of the team.
  pub record InContext (team : Team) (channel : Channel) : Type 0 where
    pub of_team :
        find_team_by_uuid (get_context_team_uuid r.client_fd s.clients) s.teams ≡ some team
    pub member : is_user_subscribed (User.get_uuid u) team ≡ true
    pub of_channel :
        find_channel_by_uuid (get_context_channel_uuid r.client_fd s.clients) team ≡ some channel

  pub data ContextOutcome (result : Resolved) : Type 0 where
    none_such : (status : StatusCode) → result ≡ refused status → ContextOutcome result
    resolved :
        (team : Team) (channel : Channel)
        → InContext team channel
        → result ≡ found team channel
        → ContextOutcome result

  resolve-outcome : ContextOutcome (resolve_context_team_channel r u s)
  unfolding resolve_context_team_channel
  resolve-outcome =
      elim (Option-cases
        (find_team_by_uuid (get_context_team_uuid r.client_fd s.clients) s.teams)) [
          | inl f ↦ rw (f, resolve_context_team_channel) (none_such _ refl)
          | inr (team, f) ↦
              rw (f, resolve_context_team_channel)
                (elim (Bool-cases (not (is_user_subscribed (User.get_uuid u) team))) [
                  | inl m ↦ rw m (none_such _ refl)
                  | inr m ↦
                      rw m
                        (elim (Option-cases (
                          find_channel_by_uuid (get_context_channel_uuid r.client_fd s.clients)
                            team)) [
                              | inl g ↦ rw g (none_such _ refl)
                              | inr (channel, g) ↦ rw g (
                                  resolved team channel
                                    (record { of_team = f; member = not-false m; of_channel = g })
                                    refl)
                            ])
                ])
        ]

  pub data ThreadOutcome (result : Option Server) : Type 0 where
    answered :
        (status : StatusCode) → result ≡ some (queue_status r status s) → ThreadOutcome result
    exhausted : result ≡ none → ThreadOutcome result
    created :
        (title body uuid : Bytes) (draws : ℕ) (team : Team) (channel : Channel)
        → parse_create_thread_payload r ≡ some (title, body)
        → InContext team channel
        → any_of (λ thread. same (Thread.get_title thread) title) channel.threads ≡ false
        → generate_unique_thread_uuid env s ≡ some (uuid, draws)
        → result
          ≡ some (
              announce_thread r u team channel uuid (env.time s.clock_reads) title body (
                change_team
                  (get_context_team_uuid r.client_fd s.clients)
                  (change_channel (get_context_channel_uuid r.client_fd s.clients) (
                    add_thread
                      (Thread.make uuid (User.get_uuid u) (env.time s.clock_reads) title body)))
                  (record s { draws = draws; clock_reads = suc s.clock_reads })))
        → ThreadOutcome result

  thread_in-outcome :
      (title body : Bytes) (team : Team) (channel : Channel)
      → parse_create_thread_payload r ≡ some (title, body)
      → InContext team channel
      → ThreadOutcome (create_thread_in env r u title body team channel s)
  unfolding create_thread_in
  thread_in-outcome title body team channel e c =
      elim (Bool-cases (any_of (λ thread. same (Thread.get_title thread) title) channel.threads)) [
        | inl t ↦ rw t (answered _ refl)
        | inr t ↦ rw t (elim (Option-cases (generate_unique_thread_uuid env s)) [
          | inl g ↦ rw g (exhausted refl)
          | inr ((uuid, draws), g) ↦ rw g (created title body uuid draws team channel e c t g refl)
        ])
      ]

  pub handle_create_thread-outcome : ThreadOutcome (handle_create_thread env r u s)
  unfolding handle_create_thread
  handle_create_thread-outcome = elim (Option-cases (parse_create_thread_payload r)) [
    | inl e ↦ rw (e, handle_create_thread) (answered _ refl)
    | inr ((title, body), e) ↦
        rw (e, handle_create_thread)
          (elim resolve-outcome [
            | none_such status n ↦ rw n (answered _ refl)
            | resolved team channel c n ↦ rw n (thread_in-outcome title body team channel e c)
          ])
  ]

  pub data ReplyOutcome (result : Server) : Type 0 where
    answered : (status : StatusCode) → result ≡ queue_status r status s → ReplyOutcome result
    created :
        (body : Bytes) (team : Team) (channel : Channel) (thread : Thread)
        → parse_create_reply_payload r ≡ some body
        → InContext team channel
        → find_thread_by_uuid (get_context_thread_uuid r.client_fd s.clients) channel ≡ some thread
        → result
          ≡ announce_reply r u team thread (env.time s.clock_reads) body (
              change_team
                (get_context_team_uuid r.client_fd s.clients)
                (change_channel (get_context_channel_uuid r.client_fd s.clients) (
                  change_thread (get_context_thread_uuid r.client_fd s.clients) (
                    add_reply (
                      Message.make
                        (generate_uuid env.draw s.draws).0
                        (User.get_uuid u)
                        (env.time s.clock_reads)
                        body
                        []))))
                (record s {
                  draws = (generate_uuid env.draw s.draws).1;
                  clock_reads = suc s.clock_reads;
                }))
        → ReplyOutcome result

  pub handle_create_reply-outcome : ReplyOutcome (handle_create_reply env r u s)
  unfolding handle_create_reply
  handle_create_reply-outcome = elim (Option-cases (parse_create_reply_payload r)) [
    | inl e ↦ rw (e, handle_create_reply) (answered _ refl)
    | inr (body, e) ↦
        rw (e, handle_create_reply)
          (elim resolve-outcome [
            | none_such status n ↦ rw n (answered _ refl)
            | resolved team channel c n ↦
                rw n
                  (elim (Option-cases
                    (find_thread_by_uuid (get_context_thread_uuid r.client_fd s.clients) channel)) [
                      | inl g ↦ rw (g, create_reply_in) (answered _ refl)
                      | inr (thread, g) ↦
                          rw (g, create_reply_in) (created body team channel thread e c g refl)
                    ])
          ])
  ]
