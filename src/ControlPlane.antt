-- ===== src/ControlPlane.antt =====
-- apps/control-plane/src: the services behind the console and the admin API.
pub mod Authorize
pub mod Database
pub mod Rows
mod Success
pub mod Keys
pub mod Seats
pub mod Users
pub mod Invites
pub mod Flocks
pub mod Paddocks
pub mod Licence
pub mod Members
