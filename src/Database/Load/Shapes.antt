-- ===== src/Database/Load/Shapes.antt =====
-- The objects of the teams at the stages of loading (server/database/load/load.cpp), and what is asked of those that are saved.
use teams_mirror.Prelude.{
  some, ℕ, suc, ◌+◌, true, false, List, [], ◌∷◌, ◌++◌, ◌≡◌, refl, ◌∙◌, ap, sym, map, All, length,
  append_assoc, append-nil, same_iff, arith, bytes_eq, drop, drop-append, drop_all,
}
use mathlib.Core.List.{map-append}
use teams_mirror.Bytes.{Bytes}
use teams_mirror.Map.{Map, find, contains, emplace, KeysOnce}
use teams_mirror.Models.Thread.{Thread}
use teams_mirror.Models.Channel.{Channel}
use teams_mirror.Models.Channel
use teams_mirror.Models.Team.{Team}
use teams_mirror.Models.Team
use teams_mirror.Database.Loading.{
  LoadedThread, LoadedChannel, LoadedTeam, ChannelPosition, change_at,
}
use teams_mirror.Database.Records.Stored.{each_object}

-- A loop over all elements, through states that depend on those that are done.
pub each_object-steps {ℓ κ} :
    {X : Type ℓ} {S : Type κ} (body : X → S → S) (state : List X → S) (all_of : List X)
    → ((done : List X) (x : X) (rest : List X)
        → all_of ≡ done ++ x ∷ rest
        → body x (state done) ≡ state (done ++ x ∷ []))
    → each_object body all_of (state []) ≡ state all_of
unfolding each_object
each_object-steps {X = X} body state all_of step = from_here [] all_of refl
  where
    from_here :
        (done rest : List X)
        → all_of ≡ done ++ rest
        → each_object body rest (state done) ≡ state all_of
    from_here done [] e = ap state (sym (e ∙ append-nil done))
    from_here done (x ∷ rest) e =
        ap (each_object body rest) (step done x rest e)
        ∙ from_here (done ++ x ∷ []) rest (e ∙ sym (append_assoc done (x ∷ []) rest))

-- The element behind the first ones.
pub change_at-middle {ℓ} :
    {A : Type ℓ} (f : A → A) (before : List A) (x : A) (after : List A)
    → change_at (length before) f (before ++ x ∷ after) ≡ before ++ f x ∷ after
unfolding change_at
change_at-middle f [] x after = refl
change_at-middle f (y ∷ before) x after = ap (◌∷◌ y) (change_at-middle f before x after)

module _ {ℓ} {V : Type ℓ} where
  contains-middle :
      (before : Map Bytes V) (k : Bytes) (v : V) (after : Map Bytes V)
      → contains k (before ++ (k, v) ∷ after) ≡ true
  unfolding contains
  contains-middle [] k v after = ground (arith, same_iff k k)
  contains-middle ((j, w) ∷ before) k v after = ground (arith, contains-middle before k v after)

  pub contains-before :
      (before : Map Bytes V) (k : Bytes) (v : V) (after : Map Bytes V)
      → KeysOnce (before ++ (k, v) ∷ after)
      → contains k before ≡ false
  unfolding contains
  contains-before [] k v after h = refl
  contains-before ((j, w) ∷ before) k v after h = ground (
    arith,
    h.0,
    contains-before before k v after h.1,
    contains-middle before k v after,
    same_iff j k,
  )

  pub find-middle :
      (before : Map Bytes V) (k : Bytes) (v : V) (after : Map Bytes V)
      → KeysOnce (before ++ (k, v) ∷ after)
      → find k (before ++ (k, v) ∷ after) ≡ some v
  unfolding find
  find-middle [] k v after h = ground (arith, same_iff k k)
  find-middle ((j, w) ∷ before) k v after h =
      ground (
        arith,
        h.0,
        find-middle before k v after h.1,
        contains-middle before k v after,
        same_iff j k,
      )

  pub emplace-last :
      (before : Map Bytes V) (k : Bytes) (v : V)
      → contains k before ≡ false
      → emplace k v before ≡ before ++ (k, v) ∷ []
  unfolding contains emplace
  emplace-last [] k v h = refl
  emplace-last ((j, w) ∷ before) k v h = ground (arith, h, emplace-last before k v)

-- The objects while they hold none of their parts, or some.
unfoldable pub empty_thread : Thread → LoadedThread
empty_thread th = record { thread = record th { replies = [] }; replies = [] }

unfoldable pub full_thread : Thread → LoadedThread
full_thread th = record { thread = record th { replies = [] }; replies = th.replies }

unfoldable pub channel_with : List LoadedThread → Channel → LoadedChannel
channel_with threads c = record { channel = record c { threads = [] }; threads = threads }

unfoldable pub team_with : List Bytes → List LoadedChannel → Team → LoadedTeam
team_with users channels t = record {
  team = record t { subscribed_user_uuids = []; channels = [] };
  subscribed_users = users;
  channels = channels;
}

-- The entries of the index maps.
unfoldable pub team_entries : ℕ → List Team → Map Bytes ℕ
team_entries n [] = []
team_entries n (t ∷ ts) = (Team.get_uuid t, n) ∷ team_entries (suc n) ts

unfoldable pub channel_entries_of : ℕ → ℕ → List Channel → Map Bytes ChannelPosition
channel_entries_of n k [] = []
channel_entries_of n k (c ∷ cs) = (Channel.get_uuid c, (n, k)) ∷ channel_entries_of n (suc k) cs

unfoldable pub channel_entries : ℕ → List Team → Map Bytes ChannelPosition
unfolding channel_entries_of
channel_entries n [] = []
channel_entries n (t ∷ ts) = channel_entries_of n 0 t.channels ++ channel_entries (suc n) ts

pub length-map {ℓ κ} :
    {A : Type ℓ} {B : Type κ} (f : A → B) (xs : List A) → length (map f xs) ≡ length xs
length-map f [] = refl
length-map f (x ∷ xs) = ap suc (length-map f xs)

pub team_entries-append :
    (n : ℕ) (done rest : List Team)
    → team_entries n (done ++ rest) ≡ team_entries n done ++ team_entries (n + length done) rest
unfolding team_entries
team_entries-append n [] rest = ap (λ k. team_entries k rest) (omega arith)
team_entries-append n (t ∷ done) rest = ap (◌∷◌ (Team.get_uuid t, n)) (
    team_entries-append (suc n) done rest
    ∙ ap (λ k. team_entries (suc n) done ++ team_entries k rest) (omega arith))

pub All-middle {ℓ κ} :
    {A : Type ℓ} (P : A → Type κ) (before : List A) (x : A) (after : List A)
    → All P (before ++ x ∷ after)
    → P x
All-middle P [] x after h = h.0
All-middle P (y ∷ before) x after h = All-middle P before x after h.1

-- Those behind the elements that are done.
abbrev pub behind {ℓ} : {A : Type ℓ} → List A → List A → List A
behind done all_of = drop (length done) all_of

-- A stage of a loop over a list: `g` of the elements that are done, and `h` of the others.
module _ {ℓ κ} {A : Type ℓ} {B : Type κ} (g h : A → B) (all_of done : List A) (x : A)
    (rest : List A) (e : all_of ≡ done ++ x ∷ rest) where
  pub stage_before : map g done ++ map h (behind done all_of) ≡ map g done ++ h x ∷ map h rest
  stage_before =
      ap (λ xs. map g done ++ map h xs)
        (ap (drop (length done)) e ∙ drop-append (length done) done (x ∷ rest) refl)

  pub stage_after :
      map g done ++ g x ∷ map h rest
      ≡ map g (done ++ x ∷ []) ++ map h (behind (done ++ x ∷ []) all_of)
  stage_after =
      sym (append_assoc (map g done) (g x ∷ []) (map h rest))
      ∙ ap (λ xs. xs ++ map h rest) (sym (map-append g done (x ∷ [])))
      ∙ ap (λ xs. map g (done ++ x ∷ []) ++ map h xs)
          (sym (
            ap (drop (length (done ++ x ∷ []))) (e ∙ sym (append_assoc done (x ∷ []) rest))
            ∙ drop-append (length (done ++ x ∷ [])) (done ++ x ∷ []) rest refl))

pub stage_done {ℓ κ} :
    {A : Type ℓ} {B : Type κ} (g h : A → B) (all_of : List A)
    → map g all_of ++ map h (behind all_of all_of) ≡ map g all_of
stage_done g h all_of =
    ap (λ xs. map g all_of ++ map h xs) (drop_all (length all_of) all_of (omega arith))
    ∙ append-nil (map g all_of)

pub channel_entries_of-append :
    (n k : ℕ) (cs ds : List Channel)
    → channel_entries_of n k (cs ++ ds)
      ≡ channel_entries_of n k cs ++ channel_entries_of n (k + length cs) ds
unfolding channel_entries_of
channel_entries_of-append n k [] ds = ap (λ i. channel_entries_of n i ds) (omega arith)
channel_entries_of-append n k (c ∷ cs) ds = ap (◌∷◌ (Channel.get_uuid c, (n, k))) (
    channel_entries_of-append n (suc k) cs ds
    ∙ ap (λ i. channel_entries_of n (suc k) cs ++ channel_entries_of n i ds) (omega arith))

pub channel_entries-append :
    (n : ℕ) (done rest : List Team)
    → channel_entries n (done ++ rest)
      ≡ channel_entries n done ++ channel_entries (n + length done) rest
unfolding channel_entries
channel_entries-append n [] rest = ap (λ k. channel_entries k rest) (omega arith)
channel_entries-append n (t ∷ done) rest =
    ap (λ m. channel_entries_of n 0 t.channels ++ m)
      (channel_entries-append (suc n) done rest
        ∙ ap (λ k. channel_entries (suc n) done ++ channel_entries k rest) (omega arith))
    ∙ sym (append_assoc (channel_entries_of n 0 t.channels) _ _)

-- The change of the element behind those that are done.
pub change-stage {ℓ κ} :
    {A : Type ℓ} {B : Type κ} (g h : A → B) (done : List A) (f : B → B) (x : B) (rest : List A)
    → change_at (length done) f (map g done ++ x ∷ map h rest) ≡ map g done ++ f x ∷ map h rest
change-stage g h done f x rest =
    ap (λ n. change_at n f (map g done ++ x ∷ map h rest)) (sym (length-map g done))
    ∙ change_at-middle f (map g done) x (map h rest)
