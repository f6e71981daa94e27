-- ===== src/Examples/Sorting.antt =====
-- A sort of messages by their creation, for the examples.
use teams_mirror.Prelude.{
  ◌≡◌, true, false, List, [], ◌∷◌, if◌then◌else◌, arith, All, Bool-cases, inl, inr,
}
use teams_mirror.Prelude.Int.{ℤ, pos, negsuc, ltb_ℤ}
use mathlib.Core.List.{Perm}
use mathlib.Core.List.Perm
use teams_mirror.Models.Message.{Message}
use teams_mirror.Commands.PrivateMessages.Answer.{Ascending, SortsByCreation}

unfoldable insert : Message → List Message → List Message
insert m [] = m ∷ []
insert m (x ∷ xs) =
    let rest = insert m xs in if ltb_ℤ x.created_at m.created_at then x ∷ rest else m ∷ x ∷ xs

unfoldable pub insertion_sort : List Message → List Message
unfolding insert
insertion_sort [] = []
insertion_sort (m ∷ ms) = insert m (insertion_sort ms)

before_after : (a b : ℤ) → ltb_ℤ a b ≡ true → ltb_ℤ b a ≡ false
unfolding ltb_ℤ
before_after (pos a) (pos b) h = ground arith
before_after (pos a) (negsuc b) h = ground arith
before_after (negsuc a) (pos b) h = ground arith
before_after (negsuc a) (negsuc b) h = ground arith

no_later : (a b c : ℤ) → ltb_ℤ b a ≡ false → ltb_ℤ c b ≡ false → ltb_ℤ c a ≡ false
unfolding ltb_ℤ
no_later (pos a) (pos b) (pos c) h k = ground arith
no_later (pos a) (pos b) (negsuc c) h k = ground arith
no_later (pos a) (negsuc b) c h k = ground arith
no_later (negsuc a) (pos b) (pos c) h k = ground arith
no_later (negsuc a) (pos b) (negsuc c) h k = ground arith
no_later (negsuc a) (negsuc b) (pos c) h k = ground arith
no_later (negsuc a) (negsuc b) (negsuc c) h k = ground arith

All-insert :
    (P : Message → Type 0) (m : Message) (ms : List Message) → P m → All P ms → All P (insert m ms)
unfolding insert
All-insert P m [] h k = (h, tt)
All-insert P m (x ∷ xs) h (here, more) = elim (Bool-cases (ltb_ℤ x.created_at m.created_at)) [
  | inl e ↦ rw e (here, All-insert P m xs h more)
  | inr e ↦ rw e (h, (here, more))
]

none_before :
    (m x : Message) (ms : List Message)
    → ltb_ℤ x.created_at m.created_at ≡ false
    → All (λ (later : Message). ltb_ℤ later.created_at x.created_at ≡ false) ms
    → All (λ (later : Message). ltb_ℤ later.created_at m.created_at ≡ false) ms
none_before m x [] h k = tt
none_before m x (y ∷ ys) h (here, more) =
    (no_later m.created_at x.created_at y.created_at h here, none_before m x ys h more)

insert-Ascending : (m : Message) (ms : List Message) → Ascending ms → Ascending (insert m ms)
unfolding insert
insert-Ascending m [] h = (tt, tt)
insert-Ascending m (x ∷ xs) (lower, more) = elim (Bool-cases (ltb_ℤ x.created_at m.created_at)) [
  | inl e ↦ rw e (
    All-insert (λ (later : Message). ltb_ℤ later.created_at x.created_at ≡ false) m xs
        (before_after x.created_at m.created_at e) lower,
    insert-Ascending m xs more,
  )
  | inr e ↦ rw e ((e, none_before m x xs e lower), (lower, more))
]

insert-Perm : (m : Message) (ms : List Message) → Perm (insert m ms) (m ∷ ms)
unfolding insert
insert-Perm m [] = Perm.refl _
insert-Perm m (x ∷ xs) = elim (Bool-cases (ltb_ℤ x.created_at m.created_at)) [
  | inl e ↦ rw e (Perm.trans (Perm.cons x (insert-Perm m xs)) (Perm.swap m x xs))
  | inr e ↦ rw e (Perm.refl _)
]

insertion_sort-Perm : (ms : List Message) → Perm (insertion_sort ms) ms
unfolding insertion_sort
insertion_sort-Perm [] = Perm.nil
insertion_sort-Perm (m ∷ ms) =
    Perm.trans (insert-Perm m (insertion_sort ms)) (Perm.cons m (insertion_sort-Perm ms))

insertion_sort-Ascending : (ms : List Message) → Ascending (insertion_sort ms)
unfolding insertion_sort
insertion_sort-Ascending [] = tt
insertion_sort-Ascending (m ∷ ms) =
    insert-Ascending m (insertion_sort ms) (insertion_sort-Ascending ms)

pub insertion_sort-SortsByCreation : SortsByCreation insertion_sort
insertion_sort-SortsByCreation = record {
  rearranges = insertion_sort-Perm;
  ascends = insertion_sort-Ascending;
}
