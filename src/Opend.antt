-- ===== src/Opend.antt =====
-- apue.3e/ipc2/opend: the server that opens files for its clients, with apue.3e/lib/bufargs.c.
pub mod Clients
pub mod Request
pub mod ClientLaws
pub mod RequestLaws
pub mod Loop
pub mod LoopLaws
pub mod ServeSteps
pub mod ServeLaws
mod Tests
