-- ===== src/V3.antt =====
-- libsrsirc/v3.c: capability negotiation (`V3.Caps`), its message handlers (`V3.Handlers`,
-- `V3.StartTls`) and message tags (`V3.Tags`).
pub mod Caps
pub mod Handlers
pub mod StartTls
pub mod Tags
