-- ===== src/Routing.antt =====
-- src/main.rs's module src/routing.rs on Linux: the routes that the tunnel installs in the kernel.
-- The command `ip`, and the texts of addresses, are parameters.
pub mod Commands
pub mod Manager
