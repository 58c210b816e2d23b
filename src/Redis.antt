-- ===== src/Redis.antt =====
-- pkgs/helpers/redis: the names of the keys, and the operations over the client.
pub mod Keys
pub mod Client
