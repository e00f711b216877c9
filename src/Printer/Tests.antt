-- ===== src/Printer/Tests.antt =====
-- The job number file and the printer's buffers on small inputs.
use learning_notes.Base.{
  ℕ, ◌≡◌, ◌≤◌, arith, Option, some, [], ◌∷◌, ◌++◌, codes, length, drop, take, length-take,
}
use learning_notes.Base.Int.{pos}
use learning_notes.CString.{Bytes, decimal}
use learning_notes.Printer.JobFile.{init_request, update_jobno}
use learning_notes.Printer.Header.{add_option}
use learning_notes.Printer.Laws.{take_option, add_option-take_option}
use learning_notes.Printer.JobLaws.{update_jobno-init_request}

update_jobno-init_request_example : init_request [] (update_jobno (codes "9") 10) ≡ pos 10
unfolding decimal
update_jobno-init_request_example =
    update_jobno-init_request [] (codes "9") 10 (omega arith) (omega arith)

add_option-take_option_example :
    take_option (drop 1 (add_option (0 ∷ []) 0x47 (codes "charset") (codes "utf-8") ++ (3 ∷ [])))
    ≡ some (0x47, codes "charset", codes "utf-8", 3 ∷ [])
add_option-take_option_example =
    add_option-take_option (0 ∷ []) 0x47 (codes "charset") (codes "utf-8") (3 ∷ []) (omega arith)
      (omega arith) (omega arith)

abbrev tread : ℕ → Option Bytes
tread room = some (take room (7 ∷ 8 ∷ []))

some_inv : (a b : Bytes) → some a ≡ some b → a ≡ b
some_inv a b e = ground arith

tread_room : (room : ℕ) (got : Bytes) → tread room ≡ some got → length got ≤ room
tread_room room got e =
    rw (← some_inv (take room (7 ∷ 8 ∷ [])) got e)
      (omega (arith, length-take {A = ℕ} room (7 ∷ 8 ∷ [])))
