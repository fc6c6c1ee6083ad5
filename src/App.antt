-- ===== src/App.antt =====
-- src/libs/app.h, app.cpp: the command line and the pid file of the server's application.
pub mod Args
pub mod PidFile
pub mod Signals
pub mod Config
pub mod Process
pub mod Stop
pub mod Daemon
pub mod Init
mod Tests
