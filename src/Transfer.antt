-- ===== src/Transfer.antt =====
-- apue.3e/lib/readn.c and apue.3e/lib/writen.c: transfers of a whole buffer by calls that may
-- transfer less. The calls, on a state of the system, are arguments.
pub mod Laws
pub mod WriteLaws
mod Tests
use learning_notes.Base.{
  ℕ, zero, suc, ◌+◌, ◌-◌, ◌≡◌, ◌≤◌, Bool, Option, none, some, List, [], ◌∷◌, ◌++◌, ◌==◌,
  if◌then◌else◌, length, take, drop,
}

abbrev pub Bytes : Type 0
Bytes = List ℕ

module _ {S : Type 0} where
  -- What is joined to the bytes that a round has read.
  abbrev pub joined : Bytes → Option Bytes × S → Option Bytes × S
  joined bs (none, s) = (none, s)
  joined bs (some cs, s) = (some (bs ++ cs), s)

  -- One round of readn, of what `read` returned; `rest` is the rounds behind it.
  unfoldable pub read_round :
      (ℕ → S → Option Bytes × S) → ℕ → ℕ → Option Bytes × S → Option Bytes × S
  read_round rest n nleft (none, s) = if nleft == n then (none, s) else (some [], s)
  read_round rest n nleft (some [], s) = (some [], s)
  read_round rest n nleft (some (b ∷ bs), s) = joined (b ∷ bs) (rest (nleft - length (b ∷ bs)) s)

  -- The loop of readn. Each round that goes on reads a byte at least, so that `nleft` rounds do.
  unfoldable pub read_loop : (S → ℕ → Option Bytes × S) → ℕ → ℕ → ℕ → S → Option Bytes × S
  read_loop read zero n nleft s = (some [], s)
  read_loop read (suc k) n nleft s =
      if nleft == 0 then (some [], s) else read_round (read_loop read k n) n nleft (read s nleft)

  -- readn: the bytes that are read; `none` is -1.
  unfoldable pub readn : (S → ℕ → Option Bytes × S) → ℕ → S → Option Bytes × S
  unfolding read_loop read_round
  readn read n s = read_loop read n n n s

  abbrev pub counted : ℕ → Option ℕ × S → Option ℕ × S
  counted k (none, s) = (none, s)
  counted k (some m, s) = (some (k + m), s)

  -- One round of writen, of what `write` returned.
  unfoldable pub write_round : (Bytes → S → Option ℕ × S) → ℕ → Bytes → Option ℕ × S → Option ℕ × S
  write_round rest n left (none, s) = if length left == n then (none, s) else (some 0, s)
  write_round rest n left (some zero, s) = (some 0, s)
  write_round rest n left (some (suc k), s) = counted (suc k) (rest (drop (suc k) left) s)

  -- The loop of writen on the bytes that are left.
  unfoldable pub write_loop : (S → Bytes → Option ℕ × S) → ℕ → ℕ → Bytes → S → Option ℕ × S
  write_loop write zero n left s = (some 0, s)
  write_loop write (suc k) n left s =
      if length left == 0
      then (some 0, s)
      else write_round (write_loop write k n) n left (write s left)

  -- writen: how many bytes are written; `none` is -1.
  unfoldable pub writen : (S → Bytes → Option ℕ × S) → Bytes → S → Option ℕ × S
  unfolding write_loop write_round
  writen write bytes s = write_loop write (length bytes) (length bytes) bytes s
