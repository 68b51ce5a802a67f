-- ===== src/Ring/Tests.antt =====
-- Runs of the ring buffers on small inputs, and the theorems at concrete rings.
use redlib.Prelude.{
  ℕ, zero, suc, ◌+◌, ◌%◌, ◌<◌, ◌≡◌, refl, List, [], ◌∷◌, true, false, arith, get_elem?, blit,
}
use redlib.Ring.{Ring, push, pop, push_buf, pop_buf, size, clear}
use redlib.Ring.Models.{Models, size-Counts}
use redlib.Ring.Calls.{run, run_refines}
use redlib.Fifo
use redlib.Fifo.{Op, put, put_all, get, get_some, reset}

-- Four slots that hold 7 and 8, the head round the end.
abbrev wrapped : Ring ℕ
wrapped = record { buffer = 0 ∷ 0 ∷ 7 ∷ 8 ∷ []; capacity = 4; head = 0; tail = 2; full = false }

abbrev held : List ℕ
held = 7 ∷ 8 ∷ []

abbrev block : List ℕ
block = 1 ∷ 2 ∷ 3 ∷ []

abbrev storage : List ℕ
storage = 0 ∷ 0 ∷ []

abbrev near_end : Ring ℕ
near_end = record { buffer = 0 ∷ 0 ∷ 0 ∷ []; capacity = 3; head = 2; tail = 1; full = false }

abbrev script : List (Op ℕ)
script = put 1 ∷ put_all (2 ∷ 3 ∷ []) ∷ get ∷ get_some 5 ∷ get ∷ reset ∷ put 9 ∷ get ∷ []

wrapped-Models : Models wrapped held
wrapped-Models = record {
  window = record {
    storage = omega arith;
    tail_in = omega arith;
    fits = omega arith;
    cells = cells;
  };
  counts = record {
    small = omega arith;
    tail_in = omega arith;
    fits = omega arith;
    head_at = refl;
    full_at = refl;
  };
}
  where
    cells : (i : ℕ) → i < 2 → get_elem? wrapped.buffer ((2 + i) % 4) ≡ get_elem? held i
    cells zero h = refl
    cells (suc zero) h = refl
    cells (suc (suc i)) h = absurd (omega arith)

-- Puts fill the ring to four, gets and the reset empty it.
run-wrapped :
    run wrapped script
    ≡ (1, [])
      ∷ (1, [])
      ∷ (1, 7 ∷ [])
      ∷ (3, 8 ∷ 1 ∷ 2 ∷ [])
      ∷ (0, [])
      ∷ (0, [])
      ∷ (1, [])
      ∷ (1, 9 ∷ [])
      ∷ []
unfolding run push pop push_buf pop_buf clear blit
run-wrapped = refl

-- A block that goes round the end of the array.
push_buf-wraps :
    push_buf near_end (5 ∷ 6 ∷ 7 ∷ [])
    ≡ (2, record { buffer = 6 ∷ 0 ∷ 5 ∷ []; capacity = 3; head = 1; tail = 1; full = true })
unfolding push_buf blit
push_buf-wraps = refl

run_refines_example : run wrapped script ≡ Fifo.run 4 held script
run_refines_example = run_refines script wrapped held wrapped-Models

size-Counts_example : size wrapped ≡ 2
size-Counts_example = size-Counts wrapped 2 wrapped-Models.counts
