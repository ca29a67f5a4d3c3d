-- ===== src/Tlog.antt =====
-- tlogiroh: a transparency log whose checkpoints are signed, cosigned and gossiped.
pub mod Api
pub mod Checkpoint
pub mod Notes
pub mod Equivocation
pub mod Policy
pub mod Witness
pub mod Client
pub mod Source
pub mod Operator
mod Tests
