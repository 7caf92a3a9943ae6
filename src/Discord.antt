-- ===== src/Discord.antt =====
-- Parts of the Discord interface, discord_app.
pub mod Split
