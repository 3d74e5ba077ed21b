-- ===== src/Boot.antt =====
-- frontend/js/op-boot.js: what the console fetches at boot and on a refresh, and what it makes of the
-- answers.
pub mod Servers
pub mod World
pub mod Wave
pub mod Refresh
pub mod Tests
