-- ===== src/Exec.antt =====
-- include/exec/: execution strategies, the risk gate and the fill simulator.
pub mod Types
pub mod RiskGate
pub mod Twap
pub mod AlmgrenChriss
pub mod Pov
pub mod Vwap
pub mod FillSim
mod Tests
