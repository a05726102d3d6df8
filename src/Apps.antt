-- ===== src/Apps.antt =====
-- internal/apps: the public client apps, from their specs to the prompts that their visitors' questions
-- become.
pub mod Spec
pub mod Prompt
pub mod Knowledge
pub mod Retrieve
mod Tests
