-- ===== src/Sessions/Handlers.antt =====
-- Login, logout and the loss of a connection keep the sessions consistent.
use teams_mirror.Prelude.{
  ℕ, ◌≡◌, refl, Bool, true, false, ◌||◌, none, some, List, [], ◌∷◌, ◌++◌, arith, same_refl, any_of,
  find_if, update_if, find_if-any_of, find_if-holds, any_of-append, Bool-cases, inl, inr, ◌∙◌,
  nat_eq, same→eq,
}
use teams_mirror.Bytes.{Bytes}
use teams_mirror.Map.{Map, find, assign, erase}
use teams_mirror.Server.{Server, Request, queue_packet, queue_status}
use teams_mirror.Server.Queueing.{queue_each_lem}
use teams_mirror.Models.User.{User, add_logged_in, remove_logged_in}
use teams_mirror.Models.User
use teams_mirror.Commands.Lookup.{user_has_uuid, find_user_by_uuid}
use teams_mirror.Commands.Login.{complete_login}
use teams_mirror.Sessions.{count_sessions, Consistent}
use teams_mirror.Sessions.Counting.{
  count-assign, count-erase, AllKnown-assign, AllKnown-erase, AllKnown-mono, count-unknown,
}
use teams_mirror.Sessions.Update.{
  add-KeepsUuid, remove-KeepsUuid, any_of_uuid-update, update-DistinctUuids, Counted-update,
  Counted-create, DistinctUuids-create,
}

module _ (r : Request) (u : User) (s : Server) where
  pub users-complete_login : (complete_login r u s).users ≡ s.users
  unfolding complete_login queue_status queue_packet
  users-complete_login = rw queue_each_lem refl

  pub by_fd-complete_login :
      (complete_login r u s).authenticated_users_by_fd
      ≡ assign r.client_fd (User.get_uuid u) s.authenticated_users_by_fd
  unfolding complete_login queue_status queue_packet
  by_fd-complete_login = rw queue_each_lem refl

-- The identifier of a user that was found is one of the list's.
found_uuid :
    (p : User → Bool) (users : List User) (w : User)
    → find_if p users ≡ some w
    → any_of (user_has_uuid (User.get_uuid w)) users ≡ true
found_uuid p users w h = elim (Bool-cases (any_of (user_has_uuid (User.get_uuid w)) users)) [
  | inl e ↦ e
  | inr e ↦ ground (
    arith,
    find_if-any_of p (user_has_uuid (User.get_uuid w)) users w h e,
    same_refl (User.get_uuid w),
  )
]

module _ (users : List User) (by_fd : Map ℕ Bytes) (fd : ℕ) (c : Consistent users by_fd) where
  -- A known user logs in at a free descriptor.
  pub login-Consistent :
      (p : User → Bool) (w : User)
      → find_if p users ≡ some w
      → find fd by_fd ≡ none
      → Consistent (update_if p add_logged_in users) (assign fd (User.get_uuid w) by_fd)
  login-Consistent p w h free = record {
    counted =
        Counted-update (λ x. count_sessions x by_fd)
          (λ x. count_sessions x (assign fd (User.get_uuid w) by_fd)) (User.get_uuid w) p
          add_logged_in users w
          (λ x d. ground (arith, count-assign fd (User.get_uuid w) x by_fd free)) add-KeepsUuid
          (λ u e n.
            unfold add_logged_in in
            ground (
              arith,
              same_refl (User.get_uuid w),
              count-assign fd (User.get_uuid w) (User.get_uuid w) by_fd free,
            ))
          h refl c.distinct c.counted;
    distinct = update-DistinctUuids p add_logged_in add-KeepsUuid users c.distinct;
    known =
        AllKnown-assign _ fd (User.get_uuid w) by_fd
          (any_of_uuid-update p add_logged_in add-KeepsUuid (User.get_uuid w) users
            ∙ found_uuid p users w h)
          (AllKnown-mono users _ by_fd
            (λ x e. any_of_uuid-update p add_logged_in add-KeepsUuid x users ∙ e) c.known);
  }

  -- A known user's session at a descriptor ends.
  pub logout-Consistent :
      (v : Bytes) (w : User)
      → find_user_by_uuid v users ≡ some w
      → find fd by_fd ≡ some v
      → Consistent (update_if (user_has_uuid v) remove_logged_in users) (erase fd by_fd)
  unfolding find_user_by_uuid
  logout-Consistent v w h bound = record {
    counted =
        Counted-update (λ x. count_sessions x by_fd) (λ x. count_sessions x (erase fd by_fd)) v
          (user_has_uuid v) remove_logged_in users w
          (λ x d. ground (arith, count-erase fd v x by_fd bound)) remove-KeepsUuid
          (λ u e n.
            unfold remove_logged_in in ground (arith, same_refl v, count-erase fd v v by_fd bound))
          h (same→eq (User.get_uuid w) v (find_if-holds (user_has_uuid v) users w h)) c.distinct
          c.counted;
    distinct =
        update-DistinctUuids (user_has_uuid v) remove_logged_in remove-KeepsUuid users c.distinct;
    known = AllKnown-erase _ fd by_fd (
        AllKnown-mono users _ by_fd
          (λ x e.
            any_of_uuid-update (user_has_uuid v) remove_logged_in remove-KeepsUuid x users ∙ e)
          c.known);
  }

  -- A user with an unused identifier is made and logs in at a free descriptor.
  pub create-Consistent :
      (w : User)
      → any_of (user_has_uuid (User.get_uuid w)) users ≡ false
      → w.is_logged_in ≡ 1
      → find fd by_fd ≡ none
      → Consistent (users ++ w ∷ []) (assign fd (User.get_uuid w) by_fd)
  unfolding any_of
  create-Consistent w fresh one free = record {
    counted =
        Counted-create (λ x. count_sessions x by_fd)
          (λ x. count_sessions x (assign fd (User.get_uuid w) by_fd)) users w
          (λ x d. ground (arith, count-assign fd (User.get_uuid w) x by_fd free)) fresh
          (ground (
            arith,
            count-assign fd (User.get_uuid w) (User.get_uuid w) by_fd free,
            same_refl (User.get_uuid w),
            count-unknown users (User.get_uuid w) by_fd fresh c.known,
          ))
          c.counted;
    distinct = DistinctUuids-create users w fresh c.distinct;
    known =
        AllKnown-assign _ fd (User.get_uuid w) by_fd
          (any_of-append (user_has_uuid (User.get_uuid w)) users (w ∷ []) ∙ last_one)
          (AllKnown-mono users _ by_fd
            (λ x e. any_of-append (user_has_uuid x) users (w ∷ []) ∙ still x e) c.known);
  }
    where
      last_one :
          (any_of (user_has_uuid (User.get_uuid w)) users
            || any_of (user_has_uuid (User.get_uuid w)) (w ∷ []))
          ≡ true
      last_one = ground (arith, same_refl (User.get_uuid w))

      still :
          (x : Bytes)
          → any_of (user_has_uuid x) users ≡ true
          → (any_of (user_has_uuid x) users || any_of (user_has_uuid x) (w ∷ [])) ≡ true
      still x e = ground arith
