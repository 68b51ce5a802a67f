-- ===== src/Scanner/Ahead.antt =====
-- Scanners only move forward, over the bytes of the text.
use mathlib.Core.Path.{subst}
use mathlib.Core.List.{append_assoc}
use redlib.Prelude.{
  ℕ, suc, ◌+◌, ◌≡◌, ◌<◌, refl, sym, ap, ◌∙◌, Bool, List, [], ◌∷◌, ◌++◌, some, length, length-append,
  arith, ◌==◌, Bool-cases, inl, inr,
}
use redlib.Scanner.{Scanner, behind, match_from, while_from, through_from}

-- The second scanner stands behind bytes of the first one's rest.
pub record IsAhead (s s' : Scanner) : Type 0 where
  pub moved : List ℕ
  pub whole : s.rest ≡ moved ++ s'.rest
  pub far : s'.pos ≡ s.pos + length moved

pub ahead_refl : (s : Scanner) → IsAhead s s
ahead_refl s = record { moved = []; whole = refl; far = omega arith }

pub ahead_trans : {s t u : Scanner} → IsAhead s t → IsAhead t u → IsAhead s u
ahead_trans {u} h k = record {
  moved = h.moved ++ k.moved;
  whole = h.whole ∙ ap (λ r. h.moved ++ r) k.whole ∙ sym (append_assoc h.moved k.moved u.rest);
  far = omega (arith, h.far, k.far, length-append h.moved k.moved);
}

pub ahead_one :
    (pos c : ℕ) (rest : List ℕ) → IsAhead (record { pos = pos; rest = c ∷ rest }) (behind pos rest)
ahead_one pos c rest = record { moved = c ∷ []; whole = refl; far = omega arith }

-- What a scanner that is ahead leaves is shorter by as much as its position is larger.
pub pos_of_ahead : {s s' : Scanner} → IsAhead s s' → s'.pos + length s'.rest ≡ s.pos + length s.rest
pos_of_ahead {s} {s'} h =
    let e : length s.rest ≡ length h.moved + length s'.rest =
      ap length h.whole ∙ length-append h.moved s'.rest in
    omega (arith, e, h.far)

pub while_from-IsAhead :
    (test : ℕ → Bool) (pos : ℕ) (rest : List ℕ)
    → IsAhead (record { pos = pos; rest = rest }) (while_from test pos rest)
unfolding while_from
while_from-IsAhead test pos [] = ahead_refl _
while_from-IsAhead test pos (c ∷ rest) = elim (Bool-cases (test c)) [
  | inl go ↦ rw go (ahead_trans (ahead_one pos c rest) (while_from-IsAhead test (suc pos) rest))
  | inr stop ↦ rw stop (ahead_refl _)
]

pub through_from-IsAhead :
    (test : ℕ → Bool) (pos : ℕ) (rest : List ℕ)
    → IsAhead (record { pos = pos; rest = rest }) (through_from test pos rest)
unfolding through_from
through_from-IsAhead test pos [] = ahead_refl _
through_from-IsAhead test pos (c ∷ rest) = elim (Bool-cases (test c)) [
  | inl stop ↦ rw stop (ahead_one pos c rest)
  | inr go ↦ rw go (ahead_trans (ahead_one pos c rest) (through_from-IsAhead test (suc pos) rest))
]

-- At least one byte further.
pub record Moves (s s' : Scanner) : Type 0 where
  pub ahead : IsAhead s s'
  pub more : s.pos < s'.pos

pub one-Moves :
    (pos c : ℕ) (rest : List ℕ) (s' : Scanner)
    → IsAhead (behind pos rest) s'
    → Moves (record { pos = pos; rest = c ∷ rest }) s'
one-Moves pos c rest s' h = record {
  ahead = ahead_trans (ahead_one pos c rest) h;
  more = omega (arith, h.far);
}

pub ahead_Moves : {s t u : Scanner} → IsAhead s t → Moves t u → Moves s u
ahead_Moves h k = record { ahead = ahead_trans h k.ahead; more = omega (arith, h.far, k.more) }

pub match_from-IsAhead :
    (str : List ℕ) (pos : ℕ) (rest : List ℕ) (s' : Scanner)
    → match_from str pos rest ≡ some s'
    → IsAhead (record { pos = pos; rest = rest }) s' × (s'.pos ≡ pos + length str)
unfolding match_from
match_from-IsAhead [] pos rest s' h =
    let e : record { pos = pos; rest = rest } ≡ s' = cc h in
    (subst (IsAhead (record { pos = pos; rest = rest })) e (ahead_refl _), ground (arith, h))
match_from-IsAhead (x ∷ str) pos [] s' h = cc h
match_from-IsAhead (x ∷ str) pos (c ∷ rest) s' h = elim (Bool-cases (c == x)) [
  | inl same ↦
      let (ahead, far) = match_from-IsAhead str (suc pos) rest s' (rw same at h) in
      (ahead_trans (ahead_one pos c rest) ahead, omega (arith, far))
  | inr other ↦ absurd (cc (h, other))
]
