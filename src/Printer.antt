-- ===== src/Printer.antt =====
-- apue.3e/printer/printd.c: the job number file, and the buffers of the printer's protocol.
pub mod JobFile
pub mod Header
pub mod Laws
pub mod JobLaws
mod Tests
