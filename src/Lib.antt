-- ===== src/Lib.antt =====
-- Verification of the larger programs in the source tree of "Advanced Programming in the UNIX
-- Environment" that this repository keeps under apue.3e/.
--
-- The programs share no code but the wrappers of apue.3e/lib. The parts are:
--
-- - Db: the database library of apue.3e/db/db.c. Db.antt has the state (`Db` is the structure DB,
--   with the bytes and the offset of the two files behind idxfd and datfd, the record locks held,
--   and errno) and the monad of commands: a command ends with a value, in err_dump or err_quit,
--   with an access behind the end of idxbuf or datbuf, or out of fuel. Db/Sys is the part of the
--   system that the library calls: lseek, read, write and writev on a file that is a list of
--   bytes, and record locks, which are granted at once. Db/Io has _db_readptr, _db_readidx,
--   _db_readdat, _db_writedat, _db_writeidx and _db_writeptr; Db/Search has _db_hash,
--   _db_find_and_lock and _db_findfree; Db/Api has _db_dodelete and the functions of apue_db.h, of
--   which db_open is in Db/Open (`store_new` and `store_old` of db_store). CString holds the text
--   routines of libc that they use, over bytes. The proofs: Db/Entry is an index record as it lies
--   in the file, and how it is read; Db/Image and Db/Writes are what is written; Db/Frame is what
--   writes leave alone; Db/Chain is a hash chain and the search in it, Db/Locate that of
--   _db_find_and_lock; Db/Fetch is db_fetch; Db/Delete, Db/Sites, Db/Unlink, Db/Removed and
--   Db/Remove are db_delete, and Db/DeleteFetch the two in turn; Db/Cells, Db/Sound and Db/Rows
--   are a whole database and the mapping from keys to texts that it stands for, Db/SoundDelete,
--   Db/SoundRemoved and Db/DeleteView what db_delete makes of it; Db/FreeWalk is _db_findfree;
--   Db/Added, Db/Append and Db/Reuse are the record that db_store puts in front of a chain,
--   Db/Retext the one that it writes over, Db/StoreRun the steps of the call, Db/StoreSound,
--   Db/StoreOld, Db/Views and Db/StoreView what it makes of the mapping; Db/Session is about two
--   calls in turn, Db/Created about db_open, Db/Next about db_nextrec and Db/Scan about a pass
--   over all records; Db/RoundTrip and Db/Table are about single routines.
-- - Jobs: doubly linked job lists on a heap that maps addresses to nodes. Jobs/Spool is the list
--   of pending jobs of apue.3e/printer/printd.c, Jobs/RwQueue the queue of
--   apue.3e/threads/rwlock.c, and Jobs/Workers the list of worker threads of printd.c. A fault (a
--   load from the null pointer or from no node) is none. Jobs/Segments and Jobs/Order are the
--   proofs for printd.c, Jobs/RwLaws those for rwlock.c, which rest on them.
-- - MemStream: apue.3e/exercises/fmemopen.c, with what `int` makes of a `size_t` written out; an
--   access outside the buffer is `fault`.
-- - Opend: the server of apue.3e/ipc2/opend that opens files for its clients. Opend/Clients is its
--   array of clients (client.c), Opend/Request a request (lib/bufargs.c, cliargs.c and request.c),
--   and Opend/Loop a turn of the loop of loop.select.c, which calls both. The proofs are
--   ClientLaws, RequestLaws, LoopLaws about a turn that accepts, and ServeSteps and ServeLaws
--   about one that serves.
-- - Async: apue.3e/advio/rot13c2.c, a file translated through several buffers by asynchronous
--   reads and writes. Async.antt has the loop of main, and `Step`, a step of main or of the
--   system. Async/Inv is the invariant, Async/Kept, Async/Visit and Async/System that main and the
--   system keep it, Async/Output and Async/Fixed what comes out; Async/Ends, Async/Less and
--   Async/Bound count the steps, and Async/Progress shows that there is one; Async/Twice is about
--   two runs.
-- - Barrier: apue.3e/threads/barrier.c. Barrier/Runs and Barrier/Laws are the merge of lists,
--   Barrier/Rests leads the loops over the array back to it, Barrier/Merge is merge and
--   Barrier/Threads the whole program.
-- - FdPass: apue.3e/lib/sendfd.c, senderr.c and recvfd.c, over the calls of recvmsg.
-- - Transfer: apue.3e/lib/readn.c and writen.c, over any read and write.
-- - RefTable: the table of counted objects of apue.3e/threads/mutex2.c and mutex3.c.
--   RefTable/Chains is a list of the table, RefTable/Release the operations, and RefTable/Agree
--   the two files against each other. A count is an int, which does not overflow.
-- - Printer: the job number file of apue.3e/printer/printd.c, and its add_option and readmore.
-- - Base: shared lists, tests and slices of bytes.
--
-- Loops. The walks along a chain of index records run on as many rounds as the index file has
-- bytes, and one more: a chain without a cycle has fewer records. The theorems show that the walks
-- of _db_find_and_lock, _db_findfree and db_nextrec end within them. The walks along a list of
-- nodes take their fuel as an argument, and the theorems say how much is enough.
--
-- One call is undefined in C: _db_dodelete passes db->idxbuf to _db_writeidx, whose sprintf has it
-- as its source and as its target. The model reads it as if the key were copied first.
--
-- Not modelled: allocation that fails, short writes, db_close and mstream_close (they release
-- memory and descriptors), the scheduling of threads (each operation holds its lock throughout,
-- and is one step), the network side of the print spooler, and the short example programs, which
-- show a system call each.
pub mod Base
pub mod CString
pub mod Db
pub mod Jobs
pub mod MemStream
pub mod Opend
pub mod Async
pub mod Barrier
pub mod FdPass
pub mod Transfer
pub mod RefTable
pub mod Printer
