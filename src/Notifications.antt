-- ===== src/Notifications.antt =====
-- internal/notifications: the manager (manager.go) and its two backends.
pub mod Events
pub mod Ntfy
pub mod Pushgateway
pub mod Manager
pub mod Laws
