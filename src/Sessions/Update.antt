-- ===== src/Sessions/Update.antt =====
-- One user's counter changes as its number of sessions does, and the counters of all stay right.
use teams_mirror.Prelude.{
  ℕ, ◌≡◌, refl, Bool, false, some, List, [], ◌∷◌, ◌++◌, arith, same, same_iff, any_of, find_if,
  update_if, find_if-any_of, any_of-update_if, any_of-append, Bool-cases, inl, inr, ◌∙◌, ap, sym,
  subst,
}
use teams_mirror.Bytes.{Bytes, view}
use teams_mirror.Models.User.{User, add_logged_in, remove_logged_in}
use teams_mirror.Models.User
use teams_mirror.Commands.Lookup.{user_has_uuid}
use teams_mirror.Sessions.{DistinctUuids, Counted}

-- A change of the first user that satisfies a test, where the identifiers stay.
abbrev pub KeepsUuid : (User → User) → Type 0
KeepsUuid f = (u : User) → (f u).uuid ≡ u.uuid

pub add-KeepsUuid : KeepsUuid add_logged_in
unfolding add_logged_in
add-KeepsUuid u = refl

pub remove-KeepsUuid : KeepsUuid remove_logged_in
unfolding remove_logged_in
remove-KeepsUuid u = ground arith

module _ (p : User → Bool) (f : User → User) (keeps : KeepsUuid f) where
  pub any_of_uuid-update :
      (uuid : Bytes) (us : List User)
      → any_of (user_has_uuid uuid) (update_if p f us) ≡ any_of (user_has_uuid uuid) us
  any_of_uuid-update uuid us = any_of-update_if p (user_has_uuid uuid) f us (λ u. rw (keeps u))

  pub update-DistinctUuids : (us : List User) → DistinctUuids us → DistinctUuids (update_if p f us)
  unfolding update_if
  update-DistinctUuids [] d = tt
  update-DistinctUuids (u ∷ us) d = elim (Bool-cases (p u)) [
    | inl e ↦ rw (e, keeps u) d
    | inr e ↦ rw (e, any_of_uuid-update (User.get_uuid u) us) (d.0, update-DistinctUuids us d.1)
  ]

module _ (before after : Bytes → ℕ) (v : Bytes) where
  -- Where no user of the list has the identifier, the counters stay right.
  Counted-others :
      (us : List User)
      → ((uuid : Bytes) → same v uuid ≡ false → after uuid ≡ before uuid)
      → any_of (user_has_uuid v) us ≡ false
      → Counted before us
      → Counted after us
  unfolding any_of
  Counted-others [] rel h c = tt
  Counted-others (u ∷ us) rel h c = (
    ground
        (arith, rel (User.get_uuid u), same_iff v (User.get_uuid u), same_iff (User.get_uuid u) v),
    Counted-others us rel (ground arith) c.1,
  )

  pub Counted-update :
      (p : User → Bool) (f : User → User) (us : List User) (w : User)
      → ((uuid : Bytes) → same v uuid ≡ false → after uuid ≡ before uuid)
      → KeepsUuid f
      → ((u : User)
          → User.get_uuid u ≡ v
          → u.is_logged_in ≡ before v
          → (f u).is_logged_in ≡ after v)
      → find_if p us ≡ some w
      → User.get_uuid w ≡ v
      → DistinctUuids us
      → Counted before us
      → Counted after (update_if p f us)
  unfolding find_if update_if
  Counted-update p f [] w rel keeps step h e d c = tt
  Counted-update p f (u ∷ us) w rel keeps step h e d c = elim (Bool-cases (p u)) [
    | inl t ↦
        let eu : User.get_uuid u ≡ v = ground (arith, e, h, t) in
        rw t (
          step u eu (c.0 ∙ ap before eu) ∙ sym (ap after (ap view (keeps u) ∙ eu)),
          Counted-others us rel (subst (λ (x : Bytes). any_of (user_has_uuid x) us ≡ false) eu d.0)
              c.1,
        )
    | inr t ↦
        let later : find_if p us ≡ some w = rw t at h in
        rw t (
          c.0 ∙ sym (rel (User.get_uuid u) (apart later)),
          Counted-update p f us w rel keeps step later e d.1 c.1,
        )
  ]
    where
      apart : find_if p us ≡ some w → same v (User.get_uuid u) ≡ false
      apart later =
          subst (λ (x : Bytes). same x (User.get_uuid u) ≡ false) e
            (find_if-any_of p (user_has_uuid (User.get_uuid u)) us w later d.0)

-- A user with a new identifier behind the others.
pub DistinctUuids-create :
    (us : List User) (w : User)
    → any_of (user_has_uuid (User.get_uuid w)) us ≡ false
    → DistinctUuids us
    → DistinctUuids (us ++ w ∷ [])
unfolding any_of
DistinctUuids-create [] w h d = (refl, tt)
DistinctUuids-create (u ∷ us) w h d = (
  any_of-append (user_has_uuid (User.get_uuid u)) us (w ∷ [])
      ∙ ground (
        arith,
        d.0,
        same_iff (User.get_uuid u) (User.get_uuid w),
        same_iff (User.get_uuid w) (User.get_uuid u),
      ),
  DistinctUuids-create us w (ground arith) d.1,
)

pub Counted-create :
    (before after : Bytes → ℕ) (us : List User) (w : User)
    → ((uuid : Bytes) → same (User.get_uuid w) uuid ≡ false → after uuid ≡ before uuid)
    → any_of (user_has_uuid (User.get_uuid w)) us ≡ false
    → w.is_logged_in ≡ after (User.get_uuid w)
    → Counted before us
    → Counted after (us ++ w ∷ [])
unfolding any_of
Counted-create before after [] w rel h e c = (e, tt)
Counted-create before after (u ∷ us) w rel h e c = (
  ground (
    arith,
    rel (User.get_uuid u),
    same_iff (User.get_uuid w) (User.get_uuid u),
    same_iff (User.get_uuid u) (User.get_uuid w),
  ),
  Counted-create before after us w rel (ground arith) e c.1,
)
