-- ===== src/Protocol/Limits.antt =====
-- common/limits.hpp
use teams_mirror.Prelude.{ℕ}

abbrev pub max_name_length : ℕ
max_name_length = 32

abbrev pub max_description_length : ℕ
max_description_length = 255

abbrev pub max_body_length : ℕ
max_body_length = 512

abbrev pub uuid_length : ℕ
uuid_length = 37
