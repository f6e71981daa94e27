-- ===== src/Database/Disk.antt =====
-- The seven files of a save directory, and the file system as the code uses it.
use teams_mirror.Prelude.{Bool, Option}
use teams_mirror.Bytes.{Bytes}

pub data SaveFile : Type 0 where
  users_file : SaveFile
  teams_file : SaveFile
  team_subscriptions_file : SaveFile
  channels_file : SaveFile
  threads_file : SaveFile
  messages_file : SaveFile
  private_messages_file : SaveFile

-- The text of each file that is there and can be read.
abbrev pub Disk : Type 0
Disk = SaveFile → Option Bytes

-- What the system allows: the directory can be made, and a file can be opened and written whole. A file that is
-- opened but cannot be written whole is not told apart from one that cannot be opened.
pub record Access : Type 0 where
  pub directory : Bool
  pub writable : SaveFile → Bool
