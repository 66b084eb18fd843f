-- ===== src/Objects.antt =====
-- lib/objects: the requests and responses, how they are written, and the parser that turns the
-- items of a message into them.
pub mod Row
pub mod Request
pub mod Response
pub mod Parser
pub mod Wire
