-- ===== src/Host.antt =====
-- src/cpmdc_embed_host.c: the pseudopotential directory and the order of the species.
pub mod Order
pub mod Directory
mod Tests
