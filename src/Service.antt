-- ===== src/Service.antt =====
-- pkgs/service/api.go: the HTTP handlers. A handler takes what the decoder gives of the request's
-- body, and replies. The messages of the refusals and the request's identifier, which every answer
-- copies from the context, are left out.
pub mod Reply
pub mod Contract
pub mod Logs
pub mod Counts
pub mod Epochs
pub mod Daily
pub mod Total
pub mod Days
pub mod Updates
pub mod Refusals
pub mod Routes
