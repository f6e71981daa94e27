-- ===== src/Database/Records/Nested.antt =====
-- Files whose lines come from nested loops (server/database/save/save.cpp), read by one loop over records
-- (server/database/load/load.cpp).
use teams_mirror.Prelude.{List, [], ◌∷◌, ◌++◌, ◌≡◌, refl, ◌∙◌, ap, sym, map, All, append_assoc}
use teams_mirror.Bytes.{Bytes}
use teams_mirror.Database.Text.{join_escaped_fields, read_lines, write_lines}
use teams_mirror.Database.Text.Fields.{IsDelimiter}
use teams_mirror.Database.Records.{RecordFormat, each_record}
use teams_mirror.Database.Records.Stored.{IsStored, each_object, each_record-read_lines}
use teams_mirror.Database.Save.{lines_of, lines_each}

lines_of-append {ℓ} :
    {X : Type ℓ} (line : X → Bytes) (xs ys : List X)
    → lines_of line (xs ++ ys) ≡ lines_of line xs ++ lines_of line ys
unfolding lines_of
lines_of-append line [] ys = refl
lines_of-append line (x ∷ xs) ys = ap (◌∷◌ (line x)) (lines_of-append line xs ys)

lines_of-map {ℓ κ} :
    {X : Type ℓ} {Y : Type κ} (line : Y → Bytes) (f : X → Y) (xs : List X)
    → lines_of line (map f xs) ≡ lines_of (λ x. line (f x)) xs
unfolding lines_of
lines_of-map line f [] = refl
lines_of-map line f (x ∷ xs) = ap (◌∷◌ (line (f x))) (lines_of-map line f xs)

lines_each-append {ℓ} :
    {X : Type ℓ} (lines : X → List Bytes) (xs ys : List X)
    → lines_each lines (xs ++ ys) ≡ lines_each lines xs ++ lines_each lines ys
unfolding lines_each
lines_each-append lines [] ys = refl
lines_each-append lines (x ∷ xs) ys =
    ap (λ ls. lines x ++ ls) (lines_each-append lines xs ys) ∙ sym (append_assoc (lines x) _ _)

each_object-append {ℓ κ} :
    {X : Type ℓ} {S : Type κ} (body : X → S → S) (xs ys : List X) (s : S)
    → each_object body (xs ++ ys) s ≡ each_object body ys (each_object body xs s)
unfolding each_object
each_object-append body [] ys s = refl
each_object-append body (x ∷ xs) ys s = each_object-append body xs ys (body x s)

each_object-image {ℓ κ ρ} :
    {X : Type ℓ} {Y : Type κ} {S : Type ρ} (body : Y → S → S) (f : X → Y) (xs : List X) (s : S)
    → each_object body (map f xs) s ≡ each_object (λ x. body (f x)) xs s
unfolding each_object
each_object-image body f [] s = refl
each_object-image body f (x ∷ xs) s = each_object-image body f xs (body (f x) s)

All-append {ℓ κ} :
    {X : Type ℓ} (P : X → Type κ) (xs ys : List X) → All P xs → All P ys → All P (xs ++ ys)
All-append P [] ys h k = k
All-append P (x ∷ xs) ys h k = (h.0, All-append P xs ys h.1 k)

All-image {ℓ κ ρ} :
    {X : Type ℓ} {Y : Type κ} (P : Y → Type ρ) (f : X → Y) (xs : List X)
    → All (λ x. P (f x)) xs
    → All P (map f xs)
All-image P f [] h = tt
All-image P f (x ∷ xs) h = (h.0, All-image P f xs h.1)

module _ {ℓ κ} {T : Type ℓ} {X : Type κ} (parts : T → List X) where
  -- The parts of all, one after the other; and each with what it is a part of.
  unfoldable pub gather : List T → List X
  gather [] = []
  gather (t ∷ ts) = parts t ++ gather ts

  unfoldable pub paired : List T → List (T × X)
  paired [] = []
  paired (t ∷ ts) = map (λ x. (t, x)) (parts t) ++ paired ts

  pub lines_each-gather :
      (lines : X → List Bytes) (ts : List T)
      → lines_each (λ t. lines_each lines (parts t)) ts ≡ lines_each lines (gather ts)
  unfolding lines_each gather
  lines_each-gather lines [] = refl
  lines_each-gather lines (t ∷ ts) =
      ap (λ ls. lines_each lines (parts t) ++ ls) (lines_each-gather lines ts)
      ∙ sym (lines_each-append lines (parts t) (gather ts))

  lines_each-paired :
      (line : T → X → Bytes) (ts : List T)
      → lines_each (λ t. lines_of (line t) (parts t)) ts
        ≡ lines_of (λ (p : T × X). line p.0 p.1) (paired ts)
  unfolding lines_each paired lines_of
  lines_each-paired line [] = refl
  lines_each-paired line (t ∷ ts) =
      ap (λ ls. lines_of (line t) (parts t) ++ ls) (lines_each-paired line ts)
      ∙ ap (λ ls. ls ++ lines_of (λ (p : T × X). line p.0 p.1) (paired ts))
          (sym (lines_of-map (λ (p : T × X). line p.0 p.1) (λ x. (t, x)) (parts t)))
      ∙ sym
          (lines_of-append (λ (p : T × X). line p.0 p.1) (map (λ x. (t, x)) (parts t)) (paired ts))

  pub each_object-gather {ρ} :
      {S : Type ρ} (body : X → S → S) (ts : List T) (s : S)
      → each_object body (gather ts) s ≡ each_object (λ t. each_object body (parts t)) ts s
  unfolding each_object gather
  each_object-gather body [] s = refl
  each_object-gather body (t ∷ ts) s =
      each_object-append body (parts t) (gather ts) s
      ∙ each_object-gather body ts (each_object body (parts t) s)

  each_object-paired {ρ} :
      {S : Type ρ} (body : T → X → S → S) (ts : List T) (s : S)
      → each_object (λ (p : T × X). body p.0 p.1) (paired ts) s
        ≡ each_object (λ t. each_object (body t) (parts t)) ts s
  unfolding each_object paired
  each_object-paired body [] s = refl
  each_object-paired body (t ∷ ts) s =
      each_object-append (λ (p : T × X). body p.0 p.1) (map (λ x. (t, x)) (parts t)) (paired ts) s
      ∙ ap (each_object (λ (p : T × X). body p.0 p.1) (paired ts))
          (each_object-image (λ (p : T × X). body p.0 p.1) (λ x. (t, x)) (parts t) s)
      ∙ each_object-paired body ts (each_object (body t) (parts t) s)

  pub All-gather {ρ} :
      (P : X → Type ρ) (ts : List T) → All (λ t. All P (parts t)) ts → All P (gather ts)
  unfolding gather
  All-gather P [] h = tt
  All-gather P (t ∷ ts) h = All-append P (parts t) (gather ts) h.0 (All-gather P ts h.1)

  All-paired {ρ} :
      (P : T → X → Type ρ) (ts : List T)
      → All (λ t. All (P t) (parts t)) ts
      → All (λ (p : T × X). P p.0 p.1) (paired ts)
  unfolding paired
  All-paired P [] h = tt
  All-paired P (t ∷ ts) h =
      All-append (λ (p : T × X). P p.0 p.1) (map (λ x. (t, x)) (parts t)) (paired ts)
        (All-image (λ (p : T × X). P p.0 p.1) (λ x. (t, x)) (parts t) h.0) (All-paired P ts h.1)

  -- A file of the lines of the parts of all, each stored with what it is a part of.
  pub each_record-parts {ρ} :
      {S : Type ρ} (format : RecordFormat) (fields_of : T → X → List Bytes)
      (body : List Bytes → S → S) (ts : List T) (s : S)
      → IsDelimiter format.delimiter
      → All (λ t. All (IsStored format (fields_of t)) (parts t)) ts
      → each_record format body
          (read_lines (
            write_lines (
              lines_each
                (λ t.
                  lines_of (λ x. join_escaped_fields format.delimiter (fields_of t x)) (parts t))
                ts)))
          s
        ≡ each_object (λ t. each_object (λ x. body (fields_of t x)) (parts t)) ts s
  unfolding IsStored
  each_record-parts format fields_of body ts s d h =
      ap (λ lines. each_record format body (read_lines (write_lines lines)) s)
        (lines_each-paired (λ t x. join_escaped_fields format.delimiter (fields_of t x)) ts)
      ∙ each_record-read_lines format (λ (p : T × X). fields_of p.0 p.1) body (paired ts) s d
          (All-paired (λ t x. IsStored format (fields_of t) x) ts h)
      ∙ each_object-paired (λ t x. body (fields_of t x)) ts s
