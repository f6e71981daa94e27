-- ===== src/Commands/Named.antt =====
-- What the context of a client names, for a user (server/commands/list_command.cpp, info_command.cpp), told apart
-- from the order in which the code tests for it.
use teams_mirror.Prelude.{
  ◌≡◌, true, false, none, some, List, arith, is_empty, Bool-cases, Option-cases, inl, inr, refl,
}
use teams_mirror.Bytes.{Bytes}
use teams_mirror.Protocol.{err_bad_request, err_unauthorized, err_not_found}
use teams_mirror.Models.User.{User}
use teams_mirror.Models.User
use teams_mirror.Models.Thread.{Thread}
use teams_mirror.Models.Channel.{Channel}
use teams_mirror.Models.Team.{Team, is_user_subscribed}
use teams_mirror.Commands.Lookup.{
  find_team_by_uuid, find_channel_by_uuid, find_thread_by_uuid, is_context_combination_valid,
}
use teams_mirror.Commands.Navigation.{
  Target, at_root, at_team, at_channel, at_thread, refused, channel_target, team_target, navigate,
}

module _ (team_uuid channel_uuid thread_uuid : Bytes) (user : User) (teams : List Team) where
  -- The team of the context, of which the user is a member.
  pub record InTeam (team : Team) : Type 0 where
    pub named : is_empty team_uuid ≡ false
    pub found : find_team_by_uuid team_uuid teams ≡ some team
    pub member : is_user_subscribed (User.get_uuid user) team ≡ true

  -- The channel of the context, in its team.
  pub record InChannel (team : Team) (channel : Channel) : Type 0 where
    pub in_team : InTeam team
    pub named : is_empty channel_uuid ≡ false
    pub found : find_channel_by_uuid channel_uuid team ≡ some channel

  -- What the context names: all teams, a team of the user, a channel or a thread in it, or the status for what is
  -- wrong with it. An identifier without the one above it comes before a missing object.
  pub data Names : Target → Type 0 where
    no_context :
        is_empty team_uuid ≡ true
        → is_empty channel_uuid ≡ true
        → is_empty thread_uuid ≡ true
        → Names at_root
    a_team :
        (team : Team)
        → InTeam team
        → is_empty channel_uuid ≡ true
        → is_empty thread_uuid ≡ true
        → Names (at_team team)
    a_channel :
        (team : Team) (channel : Channel)
        → InChannel team channel
        → is_empty thread_uuid ≡ true
        → Names (at_channel channel)
    a_thread :
        (team : Team) (channel : Channel) (thread : Thread)
        → InChannel team channel
        → is_empty thread_uuid ≡ false
        → find_thread_by_uuid thread_uuid channel ≡ some thread
        → Names (at_thread thread)
    channel_alone :
        is_empty team_uuid ≡ true → is_empty channel_uuid ≡ false → Names (refused err_bad_request)
    thread_alone :
        is_empty channel_uuid ≡ true
        → is_empty thread_uuid ≡ false
        → Names (refused err_bad_request)
    no_team :
        is_empty team_uuid ≡ false
        → (is_empty channel_uuid ≡ true → is_empty thread_uuid ≡ true)
        → find_team_by_uuid team_uuid teams ≡ none
        → Names (refused err_not_found)
    no_member :
        (team : Team)
        → is_empty team_uuid ≡ false
        → (is_empty channel_uuid ≡ true → is_empty thread_uuid ≡ true)
        → find_team_by_uuid team_uuid teams ≡ some team
        → is_user_subscribed (User.get_uuid user) team ≡ false
        → Names (refused err_unauthorized)
    no_channel :
        (team : Team)
        → InTeam team
        → is_empty channel_uuid ≡ false
        → find_channel_by_uuid channel_uuid team ≡ none
        → Names (refused err_not_found)
    no_thread :
        (team : Team) (channel : Channel)
        → InChannel team channel
        → is_empty thread_uuid ≡ false
        → find_thread_by_uuid thread_uuid channel ≡ none
        → Names (refused err_not_found)

  channel_target-Names :
      (team : Team) (channel : Channel)
      → InChannel team channel
      → Names (channel_target thread_uuid channel)
  unfolding channel_target
  channel_target-Names team channel at = elim (Bool-cases (is_empty thread_uuid)) [
    | inl e ↦ rw e (a_channel team channel at e)
    | inr e ↦ elim (Option-cases (find_thread_by_uuid thread_uuid channel)) [
      | inl missing ↦ rw (e, missing, channel_target) (no_thread team channel at e missing)
      | inr (thread, found) ↦
          rw (e, found, channel_target) (a_thread team channel thread at e found)
    ]
  ]

  team_target-Names :
      (team : Team)
      → is_empty team_uuid ≡ false
      → (is_empty channel_uuid ≡ true → is_empty thread_uuid ≡ true)
      → find_team_by_uuid team_uuid teams ≡ some team
      → Names (team_target channel_uuid thread_uuid user team)
  unfolding team_target
  team_target-Names team named sound here =
      elim (Bool-cases (is_user_subscribed (User.get_uuid user) team)) [
        | inr e ↦ rw e (no_member team named sound here e)
        | inl e ↦
            let at : InTeam team = record { named = named; found = here; member = e } in
            elim (Bool-cases (is_empty channel_uuid)) [
              | inl c ↦ rw (e, c) (a_team team at c (sound c))
              | inr c ↦ elim (Option-cases (find_channel_by_uuid channel_uuid team)) [
                | inl missing ↦ rw (e, c, missing, team_target) (no_channel team at c missing)
                | inr (channel, found) ↦
                    rw (e, c, found, team_target)
                      (channel_target-Names team channel
                        (record { in_team = at; named = c; found = found }))
              ]
            ]
      ]

  combination :
      is_empty team_uuid ≡ false
      → (is_empty channel_uuid ≡ true → is_empty thread_uuid ≡ true)
      → is_context_combination_valid team_uuid channel_uuid thread_uuid ≡ true
  unfolding is_context_combination_valid
  combination named sound = elim (Bool-cases (is_empty channel_uuid)) [
    | inl c ↦ rw (named, c, sound c) refl
    | inr c ↦ rw (named, c) refl
  ]

  found-Names :
      is_empty team_uuid ≡ false
      → (is_empty channel_uuid ≡ true → is_empty thread_uuid ≡ true)
      → Names (navigate team_uuid channel_uuid thread_uuid user teams)
  unfolding navigate
  found-Names named sound = elim (Option-cases (find_team_by_uuid team_uuid teams)) [
    | inl missing ↦
        rw (combination named sound, named, missing, navigate) (no_team named sound missing)
    | inr (team, found) ↦
        rw (combination named sound, named, found, navigate)
          (team_target-Names team named sound found)
  ]

  -- What the code takes for the target of a context is what the context names.
  pub navigate-Names : Names (navigate team_uuid channel_uuid thread_uuid user teams)
  unfolding navigate is_context_combination_valid
  navigate-Names = elim (Bool-cases (is_empty team_uuid)) [
    | inl t ↦ elim (Bool-cases (is_empty channel_uuid)) [
      | inr c ↦ rw (t, c) (channel_alone t c)
      | inl c ↦ elim (Bool-cases (is_empty thread_uuid)) [
        | inl h ↦ rw (t, c, h) (no_context t c h)
        | inr h ↦ rw (t, c, h) (thread_alone c h)
      ]
    ]
    | inr t ↦ elim (Bool-cases (is_empty channel_uuid)) [
      | inr c ↦ found-Names t (λ e. absurd (ground (arith, c, e)))
      | inl c ↦ elim (Bool-cases (is_empty thread_uuid)) [
        | inl h ↦ found-Names t (λ e. h)
        | inr h ↦ rw (t, c, h) (thread_alone c h)
      ]
    ]
  ]
