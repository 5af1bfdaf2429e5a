-- ===== src/Kernel.antt =====
-- daemon/src/nhi.bpf.c: the programs that run in the kernel. A program is one atomic step: races
-- between programs that run at once on several processors are not modelled.
pub mod Layout
pub mod Maps
pub mod Scan
pub mod Table
pub mod Tracks
pub mod Kill
pub mod Fork
pub mod Exit
pub mod Write
pub mod Steps
pub mod Tests
