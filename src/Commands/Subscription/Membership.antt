-- ===== src/Commands/Subscription/Membership.antt =====
-- What subscribing and unsubscribing do to the members of a team.
use teams_mirror.Prelude.{
  ◌≤◌, ◌<◌, ◌≡◌, if◌then◌else◌, refl, ◌∙◌, ap, sym, subst, Bool, true, false, ◌==◌, some, List, [],
  ◌∷◌, ◌++◌, some_inj, arith, same, same_refl, same→eq, any_of, any_of-append, find_if, update_if,
  remove_if, length, Bool-cases, inl, inr, nat_eq,
}
use teams_mirror.Bytes.{Bytes, view, NoNul}
use teams_mirror.Bytes.Buffer.{view-copy_fits, view-NoNul}
use teams_mirror.Fields.{zeroed, copy_buffer}
use teams_mirror.Protocol.Limits.{uuid_length}
use teams_mirror.Server.{Server, Request, queue_packet, queue_reply, queue_status}
use teams_mirror.Models.User.{User}
use teams_mirror.Models.User
use teams_mirror.Models.Team.{
  Team, make_uuid, add_subscribed_user, is_user_subscribed, remove_subscribed_user,
}
use teams_mirror.Commands.Lookup.{team_has_uuid, find_team_by_uuid, get_authenticated_user}
use teams_mirror.Commands.Subscription.{
  with_team, parse_team_uuid_from_payload, subscribe, unsubscribe, queue_user_info,
  handle_subscribe_command, handle_unsubscribe_command,
}

-- The element that is found, in its place, before and after its update.
found_place :
    {A : Type 0} (p : A → Bool) (f : A → A) (xs : List A) (a : A)
    → find_if p xs ≡ some a
    → (before : List A) × (after : List A) × (any_of p before ≡ false)
      × (xs ≡ before ++ a ∷ after)
      × (update_if p f xs ≡ before ++ f a ∷ after)
unfolding find_if update_if any_of
found_place p f [] a h = absurd (ground arith)
found_place p f (x ∷ xs) a h = elim (Bool-cases (p x)) [
  | inl e ↦
      let same_one = some_inj (rw e at h) in
      ([], xs, refl, ap (λ y. y ∷ xs) same_one, rw e (ap (λ y. f y ∷ xs) same_one))
  | inr e ↦
      let (before, after, none_before, was, is) = found_place p f xs a (rw e at h) in
      (x ∷ before, after, rw e none_before, ap (◌∷◌ x) was, rw e (ap (◌∷◌ x) is))
]

any_of-remove_if :
    (p q : Bytes → Bool) (xs : List Bytes)
    → ((x : Bytes) → q x ≡ true → p x ≡ false)
    → any_of q (remove_if p xs) ≡ any_of q xs
unfolding any_of remove_if
any_of-remove_if p q [] h = refl
any_of-remove_if p q (x ∷ xs) h = ground (arith, any_of-remove_if p q xs h, h x)

none-remove_if : (p : Bytes → Bool) (xs : List Bytes) → any_of p (remove_if p xs) ≡ false
unfolding any_of remove_if
none-remove_if p [] = refl
none-remove_if p (x ∷ xs) = ground (arith, none-remove_if p xs)

length-remove_if : (p : Bytes → Bool) (xs : List Bytes) → length (remove_if p xs) ≤ length xs
unfolding remove_if
length-remove_if p [] = ground arith
length-remove_if p (x ∷ xs) = ground (arith, length-remove_if p xs)

all_kept :
    (p : Bytes → Bool) (xs : List Bytes)
    → (length (remove_if p xs) == length xs) ≡ true
    → any_of p xs ≡ false
unfolding any_of remove_if
all_kept p [] h = refl
all_kept p (x ∷ xs) h = ground (arith, all_kept p xs, length-remove_if p xs)

record Parts (uuid : Bytes) (member : Bool) (before after : Team) : Type 0 where
  own : is_user_subscribed uuid after ≡ member
  others :
      (other : Bytes)
      → same uuid other ≡ false
      → is_user_subscribed other after ≡ is_user_subscribed other before

-- The members of a team after a change: the user's place in it is as given, the others' is as it was.
abbrev pub Changed : Bytes → Bool → Team → Team → Type 0
Changed uuid member before after =
    (other : Bytes)
    → is_user_subscribed other after
      ≡ (if same uuid other then member else is_user_subscribed other before)

Parts-Changed :
    (uuid : Bytes) (member : Bool) (t t' : Team) → Parts uuid member t t' → Changed uuid member t t'
Parts-Changed uuid member t t' p other = elim (Bool-cases (same uuid other)) [
  | inl e ↦ rw e (subst (λ x. is_user_subscribed x t' ≡ member) (same→eq uuid other e) p.own)
  | inr e ↦ rw e (p.others other e)
]

unchanged :
    (uuid : Bytes) (member : Bool) (t : Team)
    → is_user_subscribed uuid t ≡ member
    → Changed uuid member t t
unchanged uuid member t h =
    Parts-Changed uuid member t t (record { own = h; others = λ other d. refl })

module _ (uuid : Bytes) (clean : NoNul uuid) (fits : length uuid < uuid_length) where
  stored_view : view (make_uuid uuid) ≡ uuid
  unfolding make_uuid copy_buffer
  stored_view = view-copy_fits (zeroed uuid_length) uuid clean fits

  Parts-add : (t : Team) → Parts uuid true t (add_subscribed_user uuid t)
  unfolding add_subscribed_user is_user_subscribed any_of
  Parts-add t = record {
    own =
        any_of-append (λ stored. same (view stored) uuid) t.subscribed_user_uuids
          (make_uuid uuid ∷ [])
        ∙ ground (arith, stored_view, same_refl uuid);
    others = λ other d.
        any_of-append (λ stored. same (view stored) other) t.subscribed_user_uuids
          (make_uuid uuid ∷ [])
        ∙ ground (arith, stored_view, d);
  }

Parts-remove : (uuid : Bytes) (t : Team) → Parts uuid false t (remove_subscribed_user uuid t).0
unfolding remove_subscribed_user is_user_subscribed
Parts-remove uuid t = record {
  own = none-remove_if (λ stored. same (view stored) uuid) t.subscribed_user_uuids;
  others = λ other d.
      any_of-remove_if (λ stored. same (view stored) uuid) (λ stored. same (view stored) other)
        t.subscribed_user_uuids
        (λ stored h.
          ground
            (arith, d, same→eq (view stored) other h, same→eq (view stored) uuid, same_refl uuid));
}

not_removed :
    (uuid : Bytes) (t : Team)
    → (remove_subscribed_user uuid t).1 ≡ false
    → is_user_subscribed uuid t ≡ false
unfolding remove_subscribed_user is_user_subscribed
not_removed uuid t m =
    all_kept (λ stored. same (view stored) uuid) t.subscribed_user_uuids (ground arith)

module _ (r : Request) (s : Server) (u : User) (team_uuid : Bytes) (team : Team) where
  -- The request of a client that is logged in as the user, about a team that exists.
  pub record Resolves : Type 0 where
    pub authenticated : get_authenticated_user r s ≡ some u
    pub parsed : parse_team_uuid_from_payload r ≡ some team_uuid
    pub existing : find_team_by_uuid team_uuid s.teams ≡ some team

  -- The same team with other subscriptions.
  abbrev pub with_members : List Bytes → Team
  with_members stored = record {
    uuid = team.uuid;
    name = team.name;
    description = team.description;
    subscribed_user_uuids = stored;
    channels = team.channels;
  }

  -- After the request the teams are as they were, but for the subscriptions of the first with the identifier; and of
  -- those only the user's may have changed.
  abbrev pub LeavesMember : Bool → Server → Type 0
  LeavesMember member after =
      (before : List Team) × (rest : List Team) × (stored : List Bytes) × (any_of
          (team_has_uuid team_uuid) before
        ≡ false)
      × (s.teams ≡ before ++ team ∷ rest)
      × (after.teams ≡ before ++ with_members stored ∷ rest)
      × Changed (User.get_uuid u) member team (with_members stored)

  module _ (ok : Resolves) where
    resolved : (act : User → Bytes → Team → Server) → with_team r s act ≡ act u team_uuid team
    resolved act = rw (ok.authenticated, with_team) (rw ok.parsed (rw ok.existing refl))

    place :
        (f : Team → Team)
        → (before : List Team) × (rest : List Team) × (any_of (team_has_uuid team_uuid) before
            ≡ false)
          × (s.teams ≡ before ++ team ∷ rest)
          × (update_if (team_has_uuid team_uuid) f s.teams ≡ before ++ f team ∷ rest)
    place f =
        found_place (team_has_uuid team_uuid) f s.teams team
          (unfold find_team_by_uuid in ok.existing)

    left_alone :
        (member : Bool) → is_user_subscribed (User.get_uuid u) team ≡ member → LeavesMember member s
    left_alone member h =
        let (before, rest, none_before, was, _) = place (λ t. t) in
        (before, rest, team.subscribed_user_uuids, none_before, was, was, unchanged _ member team h)

    -- A request to subscribe to a team that exists, of a client that is logged in as a user whose identifier fits its field, leaves the user a member of the
    -- team. It changes the subscriptions of the first team with the identifier at most, none but the user's, and nothing else of any team.
    pub handle_subscribe-member :
        length (User.get_uuid u) < uuid_length → LeavesMember true (handle_subscribe_command r s)
    unfolding handle_subscribe_command queue_user_info queue_reply queue_status queue_packet
        add_subscribed_user
    handle_subscribe-member fits =
        subst (LeavesMember true) (sym (resolved (subscribe r s)))
          (elim (Bool-cases (is_user_subscribed (User.get_uuid u) team)) [
            | inl m ↦ rw (m, subscribe) (left_alone true m)
            | inr m ↦
                let (before, rest, none_before, was, is) =
                  place (add_subscribed_user (User.get_uuid u)) in
                rw (m, subscribe)
                  (
                    before,
                    rest,
                    _,
                    none_before,
                    was,
                    is,
                    Parts-Changed _ _ _ _
                        (Parts-add (User.get_uuid u) (view-NoNul u.uuid) fits team),
                  )
          ])

    -- A request to unsubscribe from a team that exists, of a client that is logged in, leaves the user no member of it, even if it was stored more than once.
    -- It changes the subscriptions of the first team with the identifier at most, none but the user's, and nothing else of any team.
    pub handle_unsubscribe-member : LeavesMember false (handle_unsubscribe_command r s)
    unfolding handle_unsubscribe_command queue_user_info queue_reply queue_status queue_packet
        remove_subscribed_user
    handle_unsubscribe-member =
        subst (LeavesMember false) (sym (resolved (unsubscribe r s)))
          (elim (Bool-cases (remove_subscribed_user (User.get_uuid u) team).1) [
            | inr m ↦ rw (m, unsubscribe) (left_alone false (not_removed _ team m))
            | inl m ↦
                let (before, rest, none_before, was, is) =
                  place (λ t. (remove_subscribed_user (User.get_uuid u) t).0) in
                rw (m, unsubscribe)
                  (
                    before,
                    rest,
                    _,
                    none_before,
                    was,
                    is,
                    Parts-Changed _ _ _ _ (Parts-remove (User.get_uuid u) team),
                  )
          ])
