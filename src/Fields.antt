-- ===== src/Fields.antt =====
-- The `char` array fields of the classes of server/models/: copy_buffer, which is the same in each class.
use teams_mirror.Prelude.{ℕ, replicate}
use teams_mirror.Bytes.{Bytes, copy_padded_string}

unfoldable pub copy_buffer : Bytes → Bytes → Bytes
unfolding copy_padded_string
copy_buffer destination source = copy_padded_string destination source

-- A value-initialised array.
abbrev pub zeroed : ℕ → Bytes
zeroed n = replicate n 0
