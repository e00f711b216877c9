-- ===== src/MemStream/Tests.antt =====
-- A memory stream on small inputs.
use learning_notes.Base.{ℕ, ◌+◌, ◌≡◌, refl, arith, true, some, List, [], ◌∷◌, codes}
use learning_notes.Base.Int.{pos}
use learning_notes.MemStream.{
  no_flags, is_empty, add_mode, mode_loop, type_to_flags, find_end, choose_buf, Stream, fmemopen,
  mstream_read, mstream_write, mstream_seek, seek_set, done,
}
use learning_notes.MemStream.Modes.{type_to_flags-spec_flags, spec_flags}
use learning_notes.MemStream.Inv.{IsValid, fmemopen-IsValid, mstream_write-IsValid}
use learning_notes.MemStream.RoundTrip.{write-seek-read}

-- A stream for update on four bytes.
abbrev four : List ℕ
four = 1 ∷ 2 ∷ 3 ∷ 4 ∷ []

abbrev opened : Stream
opened = record {
  buf = four;
  rsize = 4;
  vsize = 4;
  curpos = 0;
  flags = record no_flags { reads = true; writes = true };
}

opened-IsValid : IsValid opened
opened-IsValid = record {
  storage = refl;
  end_in = omega arith;
  pos_in = omega arith;
  small = omega arith;
  not_empty = omega arith;
}

type_to_flags-spec_flags_example : type_to_flags (codes "rb+") ≡ spec_flags (codes "rb+")
type_to_flags-spec_flags_example = type_to_flags-spec_flags (codes "rb+")

fmemopen-IsValid_example : IsValid (record opened { flags = record no_flags { reads = true } })
unfolding fmemopen type_to_flags mode_loop add_mode is_empty choose_buf find_end
fmemopen-IsValid_example =
    fmemopen-IsValid four true four 4 (codes "r")
      {ms = record opened { flags = record no_flags { reads = true } }} refl refl (omega arith) refl

mstream_write-IsValid_example :
    (n : ℕ) × (ms' : Stream) × (mstream_write opened (9 ∷ 8 ∷ []) ≡ done (n, ms'))
    × (IsValid ms' × (n ≡ 2) × (ms'.curpos ≡ 0 + n) × (ms'.rsize ≡ 4))
mstream_write-IsValid_example = mstream_write-IsValid opened (9 ∷ 8 ∷ []) opened-IsValid refl

write-seek-read_example :
    (ms1 : Stream) × (ms2 : Stream) × (ms3 : Stream) × (mstream_write opened (9 ∷ 8 ∷ [])
      ≡ done (2, ms1))
    × (mstream_seek ms1 (pos 0) seek_set ≡ some (0, ms2))
    × (mstream_read ms2 2 ≡ done (9 ∷ 8 ∷ [], ms3))
write-seek-read_example =
    write-seek-read opened 9 (8 ∷ []) opened-IsValid
      (record { reads = refl; writes = refl; appends = refl }) (omega arith)
