-- ===== src/Chat.antt =====
-- internal/chatstore: the conversations that the PC keeps.
pub mod Store
pub mod Cap
pub mod Save
pub mod Listing
mod Tests
