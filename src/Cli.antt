-- ===== src/Cli.antt =====
-- pkg: the command line tool.
pub mod Text
pub mod Range
pub mod Where
pub mod Printing
pub mod Fetch
pub mod Sessions
mod Tests
