-- ===== src/MsgQueue/Pending.antt =====
-- No byte of a message is lost, written twice or out of order.
use native.Mathlib.Nat.{zero-add, suc-add}
use native.Mathlib.Numerals.{unary_clauses}
use mathlib.Core.List.{append_assoc}
use mbb_devel.Prelude.{
  ℕ, zero, suc, ◌+◌, ◌-◌, ◌≤◌, ◌<◌, ◌^◌, ◌≡◌, refl, sym, ap, ◌∙◌, arith, none, some, List, [], ◌∷◌,
  ◌++◌, inl, inr,
}
use mbb_devel.Prelude.Tests.{ltb, Bool-cases, ltb→lt, ltb-false→le}
use mbb_devel.Prelude.Int.{ℤ, is_pos, pos_part}
use mbb_devel.Prelude.Lists.{All, take, drop}
use mbb_devel.MsgQueue.{MsgEntry, MsgQueue, len_left, rest_text, written, mbb_msg_queue_pop}

abbrev pub IsEntry : MsgEntry → Type 0
IsEntry e = (e.off ≤ e.len) × (e.len < 2 ^ 64)

abbrev pub queued : MsgQueue → List MsgEntry
queued none = []
queued (some q) = q

-- All bytes that are still to be written.
abbrev pub pending : List MsgEntry → List ℕ
pending [] = []
pending (e ∷ q) = rest_text e ++ pending q

-- The bytes that the writer is given for the head of the queue.
abbrev pub head_text : List MsgEntry → List ℕ
head_text [] = []
head_text (e ∷ q) = rest_text e

len_left_lem : (e : MsgEntry) → IsEntry e → len_left e ≡ e.len - e.off
len_left_lem e h = omega arith

take-take : (m n : ℕ) (xs : List ℕ) → m ≤ n → take m (take n xs) ≡ take m xs
take-take zero n xs h = refl
take-take (suc m) zero xs h = absurd (omega arith)
take-take (suc m) (suc n) [] h = refl
take-take (suc m) (suc n) (x ∷ xs) h = ap (◌∷◌ x) (take-take m n xs (omega arith))

take_all : (m n : ℕ) (xs : List ℕ) → n ≤ m → take m (take n xs) ≡ take n xs
take_all zero zero xs h = refl
take_all zero (suc n) xs h = absurd (omega arith)
take_all (suc m) zero xs h = refl
take_all (suc m) (suc n) [] h = refl
take_all (suc m) (suc n) (x ∷ xs) h = ap (◌∷◌ x) (take_all m n xs (omega arith))

take_nil : (k : ℕ) → take {A = ℕ} k [] ≡ []
take_nil zero = refl
take_nil (suc k) = refl

take_split : (n l : ℕ) (xs : List ℕ) → n ≤ l → take l xs ≡ take n xs ++ take (l - n) (drop n xs)
take_split zero l xs h = simp unary_clauses refl
take_split (suc n) zero xs h = absurd (omega arith)
take_split (suc n) (suc l) [] h = sym (take_nil (suc l - suc n))
take_split (suc n) (suc l) (x ∷ xs) h =
    simp unary_clauses (ap (◌∷◌ x) (take_split n l xs (omega arith)))

drop-drop : (m n : ℕ) (xs : List ℕ) → drop m (drop n xs) ≡ drop (n + m) xs
drop-drop m zero xs = ap (λ k. drop k xs) (sym (zero-add m))
drop-drop zero (suc n) [] = simp unary_clauses refl
drop-drop (suc m) (suc n) [] = simp unary_clauses refl
drop-drop m (suc n) (x ∷ xs) = drop-drop m n xs ∙ ap (λ k. drop k (x ∷ xs)) (sym (suc-add n m))

-- The head after a part of it is written.
advance_lem :
    (e : MsgEntry) (n : ℕ)
    → IsEntry e
    → n < len_left e
    → rest_text e ≡ take n (rest_text e) ++ rest_text (record e { off = e.off + n })
advance_lem e n h k =
    let left : len_left e ≡ e.len - e.off = len_left_lem e h in
    let left' : len_left (record e { off = e.off + n }) ≡ len_left e - n = omega arith in
    rw
      (
        take-take n (len_left e) (drop e.off e.text) (omega arith),
        left',
        sym (drop-drop n e.off e.text),
      )
      (take_split n (len_left e) (drop e.off e.text) (omega arith))

written_lem :
    (z : ℤ) (e : MsgEntry) (q : List MsgEntry)
    → IsEntry e
    → All IsEntry q
    → (pending (e ∷ q) ≡ take (pos_part z) (rest_text e) ++ pending (written z e q))
      × All IsEntry (written z e q)
unfolding written
written_lem z e q h hs = elim (Bool-cases (is_pos z)) [
  | inl some_written ↦ elim (Bool-cases (ltb (pos_part z) (len_left e))) [
    | inl part ↦
        (let n = pos_part z in
          let k : n < len_left e = ltb→lt n (len_left e) part in
          rw (some_written, part)
            (
              ap (λ x. x ++ pending q) (advance_lem e n h k)
                  ∙ append_assoc (take n (rest_text e)) (rest_text (record e { off = e.off + n }))
                      (pending q),
              ((omega (arith, len_left_lem e h), h.1), hs),
            ))
    | inr all ↦
        rw (some_written, all)
          (
            ap (λ x. x ++ pending q)
                (sym (
                  take_all (pos_part z) (len_left e) (drop e.off e.text)
                    (ltb-false→le (pos_part z) (len_left e) all))),
            hs,
          )
  ]
  | inr nothing ↦
      (let zero_part : pos_part z ≡ 0 = ground arith in rw (nothing, zero_part) (refl, (h, hs)))
]

-- What a pop takes from the bytes that wait is what the writer took from the text it was given,
-- and the entries stay well formed. On an empty queue nothing is written.
pub mbb_msg_queue_pop-pending :
    {W : Type 0} (func : List ℕ → W → ℤ × W) (q : MsgQueue) (w : W)
    → All IsEntry (queued q)
    → let r = mbb_msg_queue_pop func q w in
      (pending (queued q) ≡ take (pos_part r.0) (head_text (queued q)) ++ pending (queued r.1))
      × All IsEntry (queued r.1)
unfolding mbb_msg_queue_pop
mbb_msg_queue_pop-pending func none w h = (refl, tt)
mbb_msg_queue_pop-pending func (some []) w h = (refl, tt)
mbb_msg_queue_pop-pending func (some (e ∷ q)) w (h, hs) =
    written_lem (func (rest_text e) w).0 e q h hs
