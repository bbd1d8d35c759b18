-- ===== src/Lapi.antt =====
-- internal/lapi: the messages of the CrowdSec local API.
pub mod Models
