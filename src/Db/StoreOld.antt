-- ===== src/Db/StoreOld.antt =====
-- db_store of a key that is there, on a sound database: over the data of the record if the sizes
-- agree, and else as a new record behind the last one, with the old one in the free list.
use mathlib.Core.Path.{subst}
use learning_notes.Base.{
  ℕ, ◌+◌, ◌≤◌, ◌<◌, ◌≡◌, refl, sym, ap, ◌∙◌, true, false, some, none, List, [], ◌∷◌, ◌++◌, arith,
  length, write, replicate, length-append, length-replicate, length-write, ◌==◌, if◌then◌else◌, inl,
  inr, Bool-cases, All-parts,
}
use learning_notes.Base.Int.{ℤ, pos}
use learning_notes.CString.{Bytes, str_eq}
use learning_notes.CString.Fields.{Lacks, eq_of_str_eq}
use learning_notes.Db.{ptr_max, space, newline, Db, Run, ok}
use learning_notes.Db.Search.{hash}
use learning_notes.Db.Api.{dodelete, store_old}
use learning_notes.Db.Entry.{IsReadable, PtrAt, readptr-PtrAt}
use learning_notes.Db.Chain.{Cell, IsStored, HasData, Chain, Kept, Holds}
use learning_notes.Db.Locate.{chain_of, locked}
use learning_notes.Db.Writes.{ByteLocks, writeptr-eq, writeidx-end, writedat-set, writedat-end}
use learning_notes.Db.Unlink.{Misses, place}
use learning_notes.Db.Removed.{Bucket, dodelete-Removed}
use learning_notes.Db.FreeWalk.{chain_lock}
use learning_notes.Db.Cells.{HasData-inside}
use learning_notes.Db.DeleteFetch.{Single}
use learning_notes.Db.Sound.{Layout, Sound, view, hash-lt, find_text}
use learning_notes.Db.Rows.{update, update-at}
use learning_notes.Db.SoundDelete.{emptied}
use learning_notes.Db.SoundRemoved.{Layout-removed}
use learning_notes.Db.Added.{Layout-Adds}
use learning_notes.Db.Append.{tail_entry, tail_cell, append-Adds}
use learning_notes.Db.StoreRun.{read_head, data_appended, index_appended, appended}
use learning_notes.Db.Retext.{retext, Layout-retext, find_text-retext}
use learning_notes.Db.Views.{assigned, assigned-assigned, view-assigned, find_text-front}
use learning_notes.Db.DeleteView.{Single-rest, find_text-without}

-- What a branch of db_store leaves that stores the text under the key.
abbrev pub Wrote : Db → (ℕ → List Cell) → Bytes → Bytes → Run ℤ → Type 0
Wrote db rows key text run =
    (db' : Db) × (rows' : ℕ → List Cell) × (free' : List Cell) × (run ≡ ok (pos 0) db')
    × (db'.locks ≡ chain_lock (chain_of db key) ∷ [])
    × (db'.chainoff ≡ chain_of db key)
    × (db'.hashoff ≡ db.hashoff)
    × (db'.nhash ≡ db.nhash)
    × Layout [] db.hashoff db.nhash db'.idxfd.bytes db'.datfd.bytes rows' free'
    × ((k : Bytes) → view db rows' k ≡ assigned key (some text) (view db rows) k)

store_old-same :
    (db : Db) (key text : Bytes)
    → (length text + 1 == db.datlen) ≡ true
    → store_old key text db
      ≡ ok (pos 0) (record db {
        datfd = record {
          bytes = write db.datfd.bytes db.datoff (text ++ newline ∷ []);
          offset = db.datoff + length (text ++ newline ∷ []);
        };
        datoff = db.datoff;
        datlen = length text + 1;
        cnt_stor4 = db.cnt_stor4 + 1;
      })
unfolding store_old
store_old-same db key text e = rw (e, writedat-set) refl

store_old-other :
    (db db2 : Db) (head : ℕ) (key text : Bytes)
    → (length text + 1 == db.datlen) ≡ false
    → dodelete db ≡ ok tt db2
    → head ≤ ptr_max
    → PtrAt db2.idxfd.bytes db2.chainoff head
    → ByteLocks db2
    → IsReadable (tail_entry db2.datfd.bytes key text)
    → length db2.idxfd.bytes ≤ ptr_max
    → store_old key text db
      ≡ ok (pos 0) (record (appended db2 head key text) { cnt_stor3 = db2.cnt_stor3 + 1 })
unfolding store_old
store_old-other db db2 head key text e run le at b r im =
    rw
      (
        e,
        run,
        readptr-PtrAt db2 db2.chainoff head le at,
        writedat-end (read_head db2) text b,
        writeidx-end (data_appended (read_head db2) text) key head b le r.min_size r.max_size,
        writeptr-eq (index_appended (read_head db2) head key text) db2.chainoff
            (length db2.idxfd.bytes) im,
      )
      refl

module _ (db db0 : Db) (rows : ℕ → List Cell) (free : List Cell) (key text : Bytes) (head first : ℕ)
    (pre post : List Cell) (c : Cell) (next : ℕ) (s : Sound db rows free)
    (whole : rows (hash db key) ≡ pre ++ c ∷ post) (b : Bucket db key head (pre ++ c ∷ post) first)
    (chf : Chain db.idxfd.bytes first free) (m : Misses key pre)
    (hit : str_eq c.entry.key key ≡ true) (r : IsReadable (tail_entry db.datfd.bytes key text))
    (no_nul : Lacks 0 text) (im : length db.idxfd.bytes ≤ ptr_max)
    (k : Kept (locked db key true) db0) (st : IsStored db0.idxfd.bytes c next)
    (h : Holds db0 (place (chain_of db key) pre) c next) where
  lt : hash db key < db.nhash
  lt = hash-lt db key s.table

  flat : Layout [] db.hashoff db.nhash db.idxfd.bytes db.datfd.bytes rows free
  flat =
      subst (λ t. Layout t db.hashoff db.nhash db.idxfd.bytes db.datfd.bytes rows free) s.no_locks s

  same_locks : db0.locks ≡ chain_lock (chain_of db key) ∷ []
  same_locks = k.locks ∙ ap (λ ls. chain_lock (chain_of db key) ∷ ls) s.no_locks

  over : (length text + 1 == db0.datlen) ≡ true → Wrote db rows key text (store_old key text db0)
  over e =
      let d : db0.datfd.bytes ≡ db.datfd.bytes = ap (λ t. t.bytes) k.datfd in
      (
        _,
        update rows (hash db key) (pre ++ retext c text ∷ post),
        free,
        store_old-same db0 key text e,
        same_locks,
        k.chainoff,
        k.hashoff,
        k.nhash,
        rw (k.bytes, d, h.datoff)
            (Layout-retext db.hashoff db.nhash db.idxfd.bytes db.datfd.bytes rows free (hash db key)
              pre post c text flat lt whole (size e) no_nul),
        view-assigned db rows key (some text) (pre ++ retext c text ∷ post) (λ x.
            find_text-retext c text key x pre post m (eq_of_str_eq c.entry.key key hit)
            ∙ ap (λ t. assigned key (some text) (λ y. find_text y t) x) (sym whole)),
      )
    where
      size : (length text + 1 == db0.datlen) ≡ true → c.entry.datlen ≡ length text + 1
      size e = let same : length text + 1 ≡ db0.datlen = ground (arith, e) in sym (same ∙ h.datlen)

  again : (length text + 1 == db0.datlen) ≡ false → Wrote db rows key text (store_old key text db0)
  again e =
      let (db2, run, ls, co, z) = dodelete-Removed pre post c b k st h in
      let rows1 = update rows (hash db key) (pre ++ post) in
      let rest : rows1 (hash db key) ≡ pre ++ post = update-at rows (hash db key) (pre ++ post) in
      let held = (All-parts (HasData db.datfd.bytes) pre (c ∷ post) b.records).1.0 in
      let size : length db2.datfd.bytes ≡ length db.datfd.bytes =
        ap (λ (t : Bytes). length t) z.records
        ∙ (length-write db.datfd.bytes c.entry.datoff
              (replicate (length c.text) space ++ newline ∷ [])
              (omega (arith, HasData-inside db.datfd.bytes c held))
            ∙ omega (
              arith,
              held.size,
              HasData-inside db.datfd.bytes c held,
              length-append (replicate (length c.text) space) (newline ∷ []),
              length-replicate {A = ℕ} (length c.text) space,
            )) in
      let readable : IsReadable (tail_entry db2.datfd.bytes key text) =
        subst (λ n. IsReadable (record { key = key; datoff = n; datlen = length text + 1 }))
          (sym size) r in
      let l : Layout [] db.hashoff db.nhash db2.idxfd.bytes db2.datfd.bytes rows1
          (emptied c ∷ free) =
        subst (λ t. Layout [] db.hashoff db.nhash db2.idxfd.bytes t rows1 (emptied c ∷ free))
          (sym z.records)
          (Layout-removed db (record db2 { locks = [] }) rows free key pre post c head first s whole
            b.chain b.free_le chf z) in
      let u = subst (Single key) whole (s.unique (hash db key) lt key) in
      let single : Misses key (rows1 (hash db key)) =
        subst (Misses key) (sym rest) (Single-rest key pre post c u m hit) in
      let place' : db2.chainoff ≡ chain_of db key = co ∙ k.chainoff in
      let locks' : db2.locks ≡ chain_lock (chain_of db key) ∷ [] = ls ∙ same_locks in
      let n = tail_cell db2.idxfd.bytes db2.datfd.bytes key text in
      (
        _,
        update rows1 (hash db key) (n ∷ rows1 (hash db key)),
        emptied c ∷ free,
        store_old-other db0 db2 z.new_head key text e run z.head_le (rw place' z.head_at)
            (rw locks' (refl, tt)) readable (omega (arith, im, z.same_size)),
        locks',
        place',
        z.hashoff,
        z.nhash,
        rw place' (
            Layout-Adds db.hashoff db.nhash db2.idxfd.bytes db2.datfd.bytes _ _ rows1
              (emptied c ∷ free) (emptied c ∷ free) (hash db key) n z.new_head _ lt l
              (append-Adds db.hashoff db.nhash db2.idxfd.bytes db2.datfd.bytes rows1
                (emptied c ∷ free) (hash db key) z.new_head key text l lt z.head_le
                (subst (Chain db2.idxfd.bytes z.new_head) (sym rest) z.chain) readable no_nul
                (omega (arith, im, z.same_size))
                (λ x q.
                  subst (λ (t : Bytes). Misses t (rows1 (hash db key))) (eq_of_str_eq key x q)
                    single))),
        λ x.
            view-assigned db rows1 key (some text) (n ∷ rows1 (hash db key))
              (λ y. find_text-front key n (rows1 (hash db key)) text y refl refl) x
            ∙ ap (λ t. if str_eq key x then some text else t)
                (view-assigned db rows key none (pre ++ post)
                  (λ y.
                    find_text-without key y pre post c u m hit
                    ∙ ap (λ t. assigned key none (λ w. find_text w t) y) (sym whole))
                  x)
            ∙ assigned-assigned key (some text) none (view db rows) x,
      )

  pub store_old-Wrote : Wrote db rows key text (store_old key text db0)
  store_old-Wrote = elim (Bool-cases (length text + 1 == db0.datlen)) [
    | inl e ↦ over e
    | inr e ↦ again e
  ]
