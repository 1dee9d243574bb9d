-- ===== src/Credits.antt =====
-- src/credits: the credits that agents earn and spend.
pub mod Engine
