-- ===== src/Database/Load/Entries.antt =====
-- The entries of the index of threads (server/database/load/load.cpp), and where each of them stands.
use teams_mirror.Prelude.{
  ℕ, suc, ◌+◌, List, [], ◌∷◌, ◌++◌, ◌≡◌, ◌∙◌, ap, sym, length, append_assoc, arith, bytes_eq,
}
use teams_mirror.Bytes.{Bytes}
use teams_mirror.Map.{Map, KeysOnce}
use teams_mirror.Models.Thread.{Thread}
use teams_mirror.Models.Thread
use teams_mirror.Models.Channel.{Channel}
use teams_mirror.Models.Team.{Team}
use teams_mirror.Database.Loading.{ThreadPosition}

unfoldable pub entries_of_threads : ℕ → ℕ → ℕ → List Thread → Map Bytes ThreadPosition
entries_of_threads n k j [] = []
entries_of_threads n k j (th ∷ ths) =
    (Thread.get_uuid th, (n, k, j)) ∷ entries_of_threads n k (suc j) ths

unfoldable pub entries_of_channels : ℕ → ℕ → List Channel → Map Bytes ThreadPosition
unfolding entries_of_threads
entries_of_channels n k [] = []
entries_of_channels n k (c ∷ cs) =
    entries_of_threads n k 0 c.threads ++ entries_of_channels n (suc k) cs

unfoldable pub thread_entries : ℕ → List Team → Map Bytes ThreadPosition
unfolding entries_of_channels
thread_entries n [] = []
thread_entries n (t ∷ ts) = entries_of_channels n 0 t.channels ++ thread_entries (suc n) ts

-- No two threads have the same identifier, of all channels of all teams.
unfoldable pub ThreadsDistinct : List Team → Type 0
ThreadsDistinct teams = KeysOnce (thread_entries 0 teams)

pub entries_of_threads-append :
    (n k j : ℕ) (xs ys : List Thread)
    → entries_of_threads n k j (xs ++ ys)
      ≡ entries_of_threads n k j xs ++ entries_of_threads n k (j + length xs) ys
unfolding entries_of_threads
entries_of_threads-append n k j [] ys = ap (λ i. entries_of_threads n k i ys) (omega arith)
entries_of_threads-append n k j (x ∷ xs) ys = ap (◌∷◌ (Thread.get_uuid x, (n, k, j))) (
    entries_of_threads-append n k (suc j) xs ys
    ∙ ap (λ i. entries_of_threads n k (suc j) xs ++ entries_of_threads n k i ys) (omega arith))

pub entries_of_channels-append :
    (n k : ℕ) (xs ys : List Channel)
    → entries_of_channels n k (xs ++ ys)
      ≡ entries_of_channels n k xs ++ entries_of_channels n (k + length xs) ys
unfolding entries_of_channels
entries_of_channels-append n k [] ys = ap (λ i. entries_of_channels n i ys) (omega arith)
entries_of_channels-append n k (x ∷ xs) ys =
    ap (λ m. entries_of_threads n k 0 x.threads ++ m)
      (entries_of_channels-append n (suc k) xs ys
        ∙ ap (λ i. entries_of_channels n (suc k) xs ++ entries_of_channels n i ys) (omega arith))
    ∙ sym (append_assoc (entries_of_threads n k 0 x.threads) _ _)

pub thread_entries-append :
    (n : ℕ) (xs ys : List Team)
    → thread_entries n (xs ++ ys) ≡ thread_entries n xs ++ thread_entries (n + length xs) ys
unfolding thread_entries
thread_entries-append n [] ys = ap (λ i. thread_entries i ys) (omega arith)
thread_entries-append n (x ∷ xs) ys =
    ap (λ m. entries_of_channels n 0 x.channels ++ m)
      (thread_entries-append (suc n) xs ys
        ∙ ap (λ i. thread_entries (suc n) xs ++ thread_entries i ys) (omega arith))
    ∙ sym (append_assoc (entries_of_channels n 0 x.channels) _ _)

-- The entries before a thread: of the teams that are done, of the channels of its team, and of the threads of its channel.
abbrev pub entries_before : List Team → List Channel → List Thread → Map Bytes ThreadPosition
entries_before done cs ths =
    (thread_entries 0 done ++ entries_of_channels (length done) 0 cs)
    ++ entries_of_threads (length done) (length cs) 0 ths

pub thread_entry :
    (teams done : List Team) (t : Team) (rest : List Team) (cs : List Channel) (c : Channel)
    (more : List Channel) (ths : List Thread) (th : Thread) (others : List Thread)
    → teams ≡ done ++ t ∷ rest
    → t.channels ≡ cs ++ c ∷ more
    → c.threads ≡ ths ++ th ∷ others
    → (later : Map Bytes ThreadPosition) × (thread_entries 0 teams
        ≡ entries_before done cs ths
          ++ (Thread.get_uuid th, (length done, length cs, length ths)) ∷ later)
unfolding thread_entries entries_of_channels entries_of_threads
thread_entry teams done t rest cs c more ths th others e f g =
    let n = length done in
    let k = length cs in
    let a = thread_entries 0 done in
    let b = entries_of_channels n 0 cs in
    let d = entries_of_threads n k 0 ths in
    let after_thread = entries_of_threads n k (suc (length ths)) others in
    let after_channel = entries_of_channels n (suc k) more in
    let after_team = thread_entries (suc n) rest in
    let one : Bytes × ThreadPosition = (Thread.get_uuid th, (n, k, length ths)) in
    let threads : entries_of_threads n k 0 c.threads ≡ d ++ one ∷ after_thread =
      ap (entries_of_threads n k 0) g
      ∙ entries_of_threads-append n k 0 ths (th ∷ others)
      ∙ ap (λ i. d ++ entries_of_threads n k i (th ∷ others)) (omega arith) in
    let channels : entries_of_channels n 0 t.channels
        ≡ b ++ (entries_of_threads n k 0 c.threads ++ after_channel) =
      ap (entries_of_channels n 0) f
      ∙ entries_of_channels-append n 0 cs (c ∷ more)
      ∙ ap (λ i. b ++ entries_of_channels n i (c ∷ more)) (omega arith) in
    let whole : thread_entries 0 teams ≡ a ++ (entries_of_channels n 0 t.channels ++ after_team) =
      ap (thread_entries 0) e
      ∙ thread_entries-append 0 done (t ∷ rest)
      ∙ ap (λ i. a ++ thread_entries i (t ∷ rest)) (omega arith) in
    (
      (after_thread ++ after_channel) ++ after_team,
      whole
          ∙ ap (λ m. a ++ (m ++ after_team))
              (channels ∙ ap (λ m. b ++ (m ++ after_channel)) threads)
          ∙ regroup a b d (one ∷ after_thread) after_channel after_team,
    )
  where
    regroup :
        (a b d x y z : Map Bytes ThreadPosition)
        → a ++ ((b ++ ((d ++ x) ++ y)) ++ z) ≡ ((a ++ b) ++ d) ++ ((x ++ y) ++ z)
    regroup a b d x y z = simp append_assoc
