-- ===== src/Settings.antt =====
-- The settings pages of frontend/src/components/settings and frontend/src/features/settings, as far
-- as they change something.
pub mod Users
pub mod Storage
pub mod Profile
pub mod Tags
pub mod Models
