-- ===== src/Db/Views.antt =====
-- What a change of one chain makes of the mapping that a database stands for.
use learning_notes.Base.{
  ℕ, ◌≡◌, refl, ap, sym, ◌∙◌, inl, inr, Option, some, List, ◌∷◌, if◌then◌else◌, Bool-cases,
}
use learning_notes.CString.{Bytes, str_eq}
use learning_notes.CString.Fields.{eq_of_str_eq}
use learning_notes.Db.{Db}
use learning_notes.Db.Search.{hash}
use learning_notes.Db.Chain.{Cell}
use learning_notes.Db.Sound.{find_text, view}
use learning_notes.Db.Rows.{update, update-ind}

-- The mapping with another value for a key.
abbrev pub assigned : Bytes → Option Bytes → (Bytes → Option Bytes) → Bytes → Option Bytes
assigned key v m k = if str_eq key k then v else m k

pub assigned-assigned :
    (key : Bytes) (v w : Option Bytes) (m : Bytes → Option Bytes) (k : Bytes)
    → assigned key v (assigned key w m) k ≡ assigned key v m k
assigned-assigned key v w m k = elim (Bool-cases (str_eq key k)) [
  | inl same ↦ rw same refl
  | inr other ↦ rw other refl
]

-- A change of the chain of a key that changes the text of this key alone changes no other.
pub view-assigned :
    (db : Db) (rows : ℕ → List Cell) (key : Bytes) (v : Option Bytes) (cs : List Cell)
    → ((k : Bytes) → find_text k cs ≡ assigned key v (λ x. find_text x (rows (hash db key))) k)
    → (k : Bytes) → view db (update rows (hash db key) cs) k ≡ assigned key v (view db rows) k
view-assigned db rows key v cs h k =
    update-ind
      (λ b cs. b ≡ hash db k → find_text k cs ≡ assigned key v (λ x. find_text x (rows b)) k) rows
      (hash db key) cs (λ e. h k)
      (λ b n e. elim (Bool-cases (str_eq key k)) [
        | inl same ↦ absurd (n (e ∙ ap (hash db) (sym (eq_of_str_eq key k same))))
        | inr other ↦ rw other refl
      ])
      (hash db k) refl
    ∙ here
  where
    here : assigned key v (λ x. find_text x (rows (hash db k))) k ≡ assigned key v (view db rows) k
    here = refl

pub find_text-front :
    (key : Bytes) (n : Cell) (cs : List Cell) (text k : Bytes)
    → n.entry.key ≡ key
    → n.text ≡ text
    → find_text k (n ∷ cs) ≡ assigned key (some text) (λ x. find_text x cs) k
find_text-front key n cs text k e t = rw (e, t) refl
