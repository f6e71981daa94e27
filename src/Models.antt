-- ===== src/Models.antt =====
-- server/models/: the objects that the server keeps. A field is the object's `char` array; a getter
-- gives the view of it.
pub mod User
pub mod Message
pub mod Thread
pub mod Channel
pub mod Team
