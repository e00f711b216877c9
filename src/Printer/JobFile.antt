-- ===== src/Printer/JobFile.antt =====
-- printd.c: the file that keeps the next job number while the daemon is not running.
use learning_notes.Base.{ℕ, ◌∷◌, ◌++◌, ◌==◌, if◌then◌else◌, length, take, write, codes}
use learning_notes.Base.Int.{ℤ, pos}
use learning_notes.CString.{Bytes, cstr, atol, decimal}

-- FILENMSZ
abbrev pub filenmsz : ℕ
filenmsz = 64

-- SPOOLDIR "/" JOBFILE
abbrev pub job_path : Bytes
job_path = codes "/var/spool/printer/jobno"

-- The part of init_request behind the lock: nextjob, from the bytes of the file. `read` puts them
-- over the path that `name` still holds; `junk` is what stands behind it.
unfoldable pub init_request : Bytes → Bytes → ℤ
init_request junk file =
    if length (take filenmsz file) == 0
    then pos 1
    else atol (cstr (write (job_path ++ 0 ∷ junk) 0 (take filenmsz file)))

-- update_jobno: the file, which is not made shorter
unfoldable pub update_jobno : Bytes → ℕ → Bytes
update_jobno file nextjob = write file 0 (decimal nextjob)
