-- ===== src/Database/Records/Stored.antt =====
-- The records of server/database/load/load.cpp over the lines of server/database/save/save.cpp.
use teams_mirror.Prelude.{
  ℕ, ◌==◌, Bool, true, false, not, ◌&&◌, some, List, [], ◌∷◌, ◌++◌, ◌≡◌, ◌≢◌, refl, ◌∙◌, ap, sym,
  append-nil, append_assoc, map, arith, length, is_empty, All,
}
use teams_mirror.Bytes.{Bytes}
use teams_mirror.Database.Text.{
  line_feed, escape_field, join_others, join_escaped_fields, split_escaped_line, read_lines,
  write_lines,
}
use teams_mirror.Database.Text.Fields.{IsDelimiter, split_escaped_line-join_escaped_fields}
use teams_mirror.Database.Text.Lines.{IsLine, join_escaped_fields-IsLine, read_lines-write_lines}
use teams_mirror.Database.Records.{RecordFormat, field, parse_record, take_line, each_record}
use teams_mirror.Database.Save.{lines_of}

-- The fields that a format takes.
unfoldable pub accepts : RecordFormat → List Bytes → Bool
accepts format fields =
    (length fields == format.expected_field_count)
    && not (format.require_first_field && is_empty (field fields 0))
    && not (format.require_second_field && is_empty (field fields 1))

parse_record-accepts :
    (format : RecordFormat) (line : Bytes) (fields : List Bytes)
    → split_escaped_line format.delimiter line ≡ fields
    → accepts format fields ≡ true
    → parse_record format line ≡ some fields
unfolding parse_record accepts
parse_record-accepts format line fields e h = rw e (ground (arith, h))

append_filled : (s : Bytes) (c : ℕ) (t : Bytes) → is_empty (s ++ c ∷ t) ≡ false
append_filled [] c t = refl
append_filled (x ∷ s) c t = refl

-- At least two fields give a line with a delimiter in it.
join_escaped_fields_filled :
    (d : ℕ) (a b : Bytes) (fields : List Bytes)
    → is_empty (join_escaped_fields d (a ∷ b ∷ fields)) ≡ false
unfolding join_escaped_fields join_others
join_escaped_fields_filled d a b fields = append_filled (escape_field d a) d _

-- What is done for each of the objects that were saved.
unfoldable pub each_object {ℓ κ} : {X : Type ℓ} {S : Type κ} → (X → S → S) → List X → S → S
each_object body [] s = s
each_object body (x ∷ xs) s = each_object body xs (body x s)

-- Where each object adds one element, so do all of them, in their order.
pub each_object-map {ℓ κ ρ} :
    {X : Type ℓ} {Y : Type κ} (P : X → Type ρ) (body : X → List Y → List Y) (f : X → Y)
    → ((x : X) (ys : List Y) → P x → body x ys ≡ ys ++ f x ∷ [])
    → (xs : List X) (ys : List Y) → All P xs
    → each_object body xs ys ≡ ys ++ map f xs
unfolding each_object
each_object-map P body f one [] ys h = sym (append-nil ys)
each_object-map P body f one (x ∷ xs) ys (here, h) =
    ap (each_object body xs) (one x ys here)
    ∙ each_object-map P body f one xs (ys ++ f x ∷ []) h
    ∙ append_assoc ys (f x ∷ []) (map f xs)

pub All-implies {ℓ κ ρ} :
    {X : Type ℓ} (P : X → Type κ) (Q : X → Type ρ)
    → ((x : X) → P x → Q x)
    → (xs : List X) → All P xs
    → All Q xs
All-implies P Q f [] h = tt
All-implies P Q f (x ∷ xs) (here, h) = (f x here, All-implies P Q f xs h)

module _ {ℓ} {X : Type ℓ} (format : RecordFormat) (fields_of : X → List Bytes) where
  abbrev line_of : X → Bytes
  line_of x = join_escaped_fields format.delimiter (fields_of x)

  -- The fields of an object that its format takes, two at least.
  unfoldable pub IsStored : X → Type 0
  IsStored x =
      (a : Bytes) × (b : Bytes) × (others : List Bytes) × (fields_of x ≡ a ∷ b ∷ others)
      × (accepts format (fields_of x) ≡ true)

  lines_of-AreLines :
      (xs : List X) → format.delimiter ≢ line_feed → All IsLine (lines_of line_of xs)
  unfolding lines_of
  lines_of-AreLines [] ok = tt
  lines_of-AreLines (x ∷ xs) ok =
      (join_escaped_fields-IsLine format.delimiter (fields_of x) ok, lines_of-AreLines xs ok)

  line_of-IsStored :
      (x : X)
      → IsDelimiter format.delimiter
      → IsStored x
      → (is_empty (line_of x) ≡ false) × (parse_record format (line_of x) ≡ some (fields_of x))
  unfolding IsStored
  line_of-IsStored x d (a, b, others, e, ok) = (
    rw e (join_escaped_fields_filled format.delimiter a b others),
    parse_record-accepts format (line_of x) (fields_of x)
        (rw e (split_escaped_line-join_escaped_fields format.delimiter d a (b ∷ others))) ok,
  )

  take_line-line_of {κ} :
      {S : Type κ} (body : List Bytes → S → S) (x : X) (s : S)
      → IsDelimiter format.delimiter
      → IsStored x
      → take_line format body (line_of x) s ≡ body (fields_of x) s
  unfolding take_line
  take_line-line_of body x s d h =
      let (filled, parsed) = line_of-IsStored x d h in rw (filled, parsed) refl

  each_record-lines_of {κ} :
      {S : Type κ} (body : List Bytes → S → S) (xs : List X) (s : S)
      → IsDelimiter format.delimiter
      → All IsStored xs
      → each_record format body (lines_of line_of xs) s ≡ each_object (λ x. body (fields_of x)) xs s
  unfolding each_record each_object lines_of
  each_record-lines_of body [] s d h = refl
  each_record-lines_of body (x ∷ xs) s d (here, h) =
      ap (λ s'. each_record format body (lines_of line_of xs) s')
        (take_line-line_of body x s d here)
      ∙ each_record-lines_of body xs (body (fields_of x) s) d h

  -- A file of the lines of objects that are stored so is taken as these objects, one after the other.
  pub each_record-read_lines {κ} :
      {S : Type κ} (body : List Bytes → S → S) (xs : List X) (s : S)
      → IsDelimiter format.delimiter
      → All IsStored xs
      → each_record format body (read_lines (write_lines (lines_of line_of xs))) s
        ≡ each_object (λ x. body (fields_of x)) xs s
  unfolding IsDelimiter
  each_record-read_lines body xs s d h =
      ap (λ lines. each_record format body lines s)
        (read_lines-write_lines (lines_of line_of xs) (lines_of-AreLines xs d.3))
      ∙ each_record-lines_of body xs s d h
