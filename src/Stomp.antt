-- ===== src/Stomp.antt =====
-- The STOMP frames of packages/ws-gateway/src/utils/stomp-parser.js (and of its copy in
-- packages/chat-service/src/utils). A text is the list of its UTF-16 units.
pub mod Codec
pub mod Escape
pub mod Lines
pub mod Lacks
pub mod Stream
pub mod RoundTrip
mod Tests
