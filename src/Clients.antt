-- ===== src/Clients.antt =====
-- pkgs/helpers/clients: alerts, and the rewards backend.
pub mod Reporting
pub mod RewardsBackend
