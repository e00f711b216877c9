-- ===== src/Db/Sample.antt =====
-- A small database, for the tests.
use learning_notes.Base.{refl, arith, [], ◌∷◌, ◌++◌, codes}
use learning_notes.Base.Int.{pos}
use learning_notes.CString.{padded, decimal}
use learning_notes.Db.{Db}
use learning_notes.Db.Io.{record_text}
use learning_notes.Db.Entry.{Entry, IsReadable}
use learning_notes.Db.Image.{image}
use learning_notes.Db.Chain.{Cell, HasData, Chain}

-- A database with one bucket, which holds one record.
abbrev pub sample_entry : Entry
sample_entry = record { key = codes "k1"; datoff = 0; datlen = 3 }

abbrev pub sample_cell : Cell
sample_cell = record { at = 15; entry = sample_entry; text = codes "hi" }

abbrev pub sample : Db
sample = record {
  idxfd = record { bytes = padded 7 0 ++ (padded 7 15 ++ 10 ∷ image 0 sample_entry); offset = 0 };
  datfd = record { bytes = codes "hi" ++ 10 ∷ []; offset = 0 };
  idxbuf = [];
  datbuf = [];
  name = codes "db";
  idxoff = 0;
  idxlen = 0;
  datoff = 0;
  datlen = 0;
  ptrval = pos 0;
  ptroff = pos 0;
  chainoff = 0;
  hashoff = 7;
  nhash = 1;
  cnt_delok = 0;
  cnt_delerr = 0;
  cnt_fetchok = 0;
  cnt_fetcherr = 0;
  cnt_nextrec = 0;
  cnt_stor1 = 0;
  cnt_stor2 = 0;
  cnt_stor3 = 0;
  cnt_stor4 = 0;
  cnt_storerr = 0;
  locks = [];
  errno = 0;
}

pub sample-IsReadable : IsReadable sample_entry
unfolding record_text decimal
sample-IsReadable = record {
  no_nul = ((λ q. omega arith), ((λ q. omega arith), tt));
  no_sep = ((λ q. omega arith), ((λ q. omega arith), tt));
  min_size = omega arith;
  max_size = omega arith;
  has_data = omega arith;
  max_data = omega arith;
}

pub sample-Chain : Chain sample.idxfd.bytes 15 (sample_cell ∷ [])
unfolding padded record_text decimal
sample-Chain = (
  0,
  refl,
  record {
    ne_zero = λ q. omega arith;
    readable = sample-IsReadable;
    entry_at = record { link = refl; size = refl; text = refl; next_le = omega arith };
    inside = omega arith;
  },
  refl,
)

pub sample_data : HasData sample.datfd.bytes sample_cell
sample_data = record {
  size = refl;
  data_at = refl;
  no_nul = ((λ q. omega arith), ((λ q. omega arith), tt));
}
