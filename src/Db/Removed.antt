-- ===== src/Db/Removed.antt =====
-- _db_dodelete on a record of a sound chain: the record goes from the chain to the free list.
use mathlib.Core.Path.{subst}
use learning_notes.Base.{
  ℕ, ◌+◌, ◌≤◌, ◌≡◌, refl, ap, ◌∙◌, true, List, [], ◌∷◌, ◌++◌, arith, length, write, All, All-parts,
  All-map, inl, replicate,
}
use learning_notes.CString.{Bytes}
use learning_notes.Db.{ptr_max, space, newline, idx, File, Db, ok}
use learning_notes.Db.Api.{dodelete}
use learning_notes.Db.Entry.{PtrAt, EntryAt}
use learning_notes.Db.Image.{span, Apart}
use learning_notes.Db.Frame.{Frame}
use learning_notes.Db.Chain.{Cell, IsStored, HasData, Chain, Kept, Holds}
use learning_notes.Db.Locate.{locked, chain_of}
use learning_notes.Db.Delete.{blank, after_delete, dodelete-eq}
use learning_notes.Db.Sites.{
  Sites, Chain-inside, place_in, place_low, Spread-pre, after_delete-Frame, after_delete-link,
  after_delete-free, after_delete-blank, length-after_delete,
}
use learning_notes.Db.Unlink.{place, Spread, place-Apart, unlink}

-- The chain of a key and the head of the free list, sound and apart from each other.
pub record Bucket (db : Db) (key : Bytes) (head : ℕ) (cs : List Cell) (free : ℕ) : Type 0 where
  pub no_locks : db.locks ≡ []
  pub head_at : PtrAt db.idxfd.bytes (chain_of db key) head
  pub head_le : head ≤ ptr_max
  pub chain : Chain db.idxfd.bytes head cs
  pub fits : length cs ≤ length db.idxfd.bytes
  pub spread : Spread cs
  pub low : All (λ (d : Cell). 7 ≤ d.at) cs
  pub reach : All (λ (d : Cell). d.at ≤ ptr_max) cs
  pub table : All (λ (d : Cell). Apart (chain_of db key) 7 d.at (span d.entry)) cs
  pub records : All (HasData db.datfd.bytes) cs
  pub chain_low : 7 ≤ chain_of db key
  pub chain_in : chain_of db key + 7 ≤ length db.idxfd.bytes
  pub free_at : PtrAt db.idxfd.bytes 0 free
  pub free_le : free ≤ ptr_max

-- What db_delete leaves: the chain is that without the record, which the free list begins with.
pub record Removed (db db' : Db) (key : Bytes) (q : ℕ) (c : Cell) (rest : List Cell) (free : ℕ)
    : Type 0 where
  pub new_head : ℕ
  pub head_at : PtrAt db'.idxfd.bytes (chain_of db key) new_head
  pub head_le : new_head ≤ ptr_max
  pub chain : Chain db'.idxfd.bytes new_head rest
  pub free_at : PtrAt db'.idxfd.bytes 0 c.at
  pub blank_at : EntryAt db'.idxfd.bytes c.at (blank c.entry) free
  pub frame : Frame db.idxfd.bytes db'.idxfd.bytes ((c.at, span c.entry) ∷ (0, 7) ∷ (q, 7) ∷ [])
  pub records :
      db'.datfd.bytes
      ≡ write db.datfd.bytes c.entry.datoff (replicate (length c.text) space ++ newline ∷ [])
  pub locks : db'.locks ≡ []
  pub hashoff : db'.hashoff ≡ db.hashoff
  pub nhash : db'.nhash ≡ db.nhash
  pub same_size : length db'.idxfd.bytes ≡ length db.idxfd.bytes

module _ {db : Db} {key : Bytes} {head free : ℕ} (pre post : List Cell) (c : Cell)
    (b : Bucket db key head (pre ++ c ∷ post) free) where
  at_c : 7 ≤ c.at
  at_c = (All-parts (λ (d : Cell). 7 ≤ d.at) pre (c ∷ post) b.low).1.0

  before : All (λ (d : Cell). Apart c.at (span c.entry) d.at (span d.entry)) pre
  before = Spread-pre pre post c b.spread

  sites :
      {next : ℕ}
      → IsStored db.idxfd.bytes c next
      → Sites db.idxfd.bytes (place (chain_of db key) pre) c
  sites st = record {
    inside = st.inside;
    low = at_c;
    reach = (All-parts (λ (d : Cell). d.at ≤ ptr_max) pre (c ∷ post) b.reach).1.0;
    ptr_in =
        place_in db.idxfd.bytes (chain_of db key) pre b.chain_in
          (All-parts (λ (d : Cell). d.at + span d.entry ≤ length db.idxfd.bytes) pre (c ∷ post)
            (Chain-inside db.idxfd.bytes head (pre ++ c ∷ post) b.chain)).0;
    ptr_low =
        place_low (chain_of db key) pre b.chain_low
          (All-parts (λ (d : Cell). 7 ≤ d.at) pre (c ∷ post) b.low).0;
    away =
        place-Apart c.at (span c.entry) (chain_of db key) pre
          (omega (
            arith,
            (All-parts (λ (d : Cell). Apart (chain_of db key) 7 d.at (span d.entry)) pre (c ∷ post)
                b.table).1.0,
          ))
          before;
    max_size = st.readable.max_size;
  }

  pub dodelete-Removed :
      {db1 : Db} {next : ℕ}
      → Kept (locked db key true) db1
      → IsStored db1.idxfd.bytes c next
      → Holds db1 (place (chain_of db key) pre) c next
      → (db2 : Db) × (dodelete db1 ≡ ok tt db2)
        × (db2.locks ≡ db1.locks)
        × (db2.chainoff ≡ db1.chainoff)
        × Removed db
            (record db2 { locks = [] })
            key
            (place (chain_of db key) pre)
            c
            (pre ++ post)
            free
  dodelete-Removed {db1} {next} k st1 h =
      let st = subst (λ (t : Bytes). IsStored t c next) k.bytes st1 in
      let s = sites st in
      let d = (All-parts (HasData db.datfd.bytes) pre (c ∷ post) b.records).1.0 in
      let (db2, deleted, z) =
        dodelete-eq db1 (place (chain_of db key) pre) c next free
          (record { exclusive = true; file = idx; start = chain_of db key; len = 1 }) h st1 d.size
          s.reach b.free_le (rw k.bytes b.free_at)
          (k.locks
            ∙ ap
                (λ ls.
                  record { exclusive = true; file = idx; start = chain_of db key; len = 1 } ∷ ls)
                b.no_locks)
          (omega (arith, b.chain_low)) in
      let g = after_delete db.idxfd.bytes (place (chain_of db key) pre) c next free in
      let same : db2.idxfd.bytes ≡ g =
        z.index
        ∙ ap (λ (t : Bytes). after_delete t (place (chain_of db key) pre) c next free) k.bytes in
      let fr =
        after_delete-Frame db.idxfd.bytes (place (chain_of db key) pre) c next free s
          st.entry_at.next_le b.free_le in
      let (head', le', at', ch') =
        unlink 0 db.idxfd.bytes g pre post c next (chain_of db key) head b.head_at b.head_le
          st.entry_at.next_le b.chain st.entry_at.link fr
          (after_delete-link db.idxfd.bytes (place (chain_of db key) pre) c next free s
            st.entry_at.next_le b.free_le)
          b.spread
          (All-map (λ (d : Cell). 7 ≤ d.at) (λ (d : Cell). Apart 0 7 d.at (span d.entry))
            (λ d h. inl (omega arith)) (pre ++ c ∷ post) b.low)
          (inl (omega (arith, b.chain_low))) b.chain_in b.table in
      (
        db2,
        deleted,
        z.locks,
        z.chainoff,
        record {
          new_head = head';
          head_at = rw same at';
          head_le = le';
          chain = rw same ch';
          free_at = rw same (
              after_delete-free db.idxfd.bytes (place (chain_of db key) pre) c next free s
                st.entry_at.next_le b.free_le);
          blank_at = rw same (
              after_delete-blank db.idxfd.bytes (place (chain_of db key) pre) c next free s
                st.entry_at.next_le b.free_le);
          frame = rw same fr;
          records =
              z.records
              ∙ ap
                  (λ (t : File).
                    write t.bytes c.entry.datoff (replicate (length c.text) space ++ newline ∷ []))
                  k.datfd;
          locks = refl;
          hashoff = z.hashoff ∙ k.hashoff;
          nhash = z.nhash ∙ k.nhash;
          same_size = rw same (
              length-after_delete db.idxfd.bytes (place (chain_of db key) pre) c next free s
                st.entry_at.next_le b.free_le);
        },
      )
