-- ===== src/Mdm.antt =====
-- The MDM core (internal/mdmcore): what surrounds the service of NanoMDM.
pub mod Events
pub mod Commands
