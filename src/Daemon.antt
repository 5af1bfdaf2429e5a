-- ===== src/Daemon.antt =====
-- daemon/src/nhi.c with daemon/src/sqlite.c and daemon/src/utils.c: the daemon that takes the events
-- of the kernel programs and keeps the database.
pub mod Clock
pub mod Decimal
pub mod Statements
pub mod Sqlite
pub mod Store
pub mod Writers
pub mod Os
pub mod Environ
pub mod Handlers
pub mod Log
pub mod Main
pub mod Tests
