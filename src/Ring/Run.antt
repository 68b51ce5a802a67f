-- ===== src/Ring/Run.antt =====
-- A ring in the middle of `push_buf` or `pop_buf`: one copy at a time.
use mathlib.Core.Path.{ap}
use redlib.Prelude.{
  ℕ, ◌+◌, ◌-◌, ◌%◌, ◌≤◌, ◌<◌, ◌≡◌, refl, ◌∙◌, false, List, ◌++◌, arith, length, drop, ◌==◌, u64_mod,
  add64, length-append, length-drop,
}
use redlib.Window.{Window, blit-Window, drop-Window, advance_head, advance_tail, shorten, full_test}
use redlib.Ring.{Ring, write_run, read_run}
use redlib.Ring.Models.{Models}

module _ {ℓ} {A : Type ℓ} where
  -- A ring between two copies: `full` is not set yet.
  pub record Run (r : Ring A) (q : List A) : Type ℓ where
    pub held : Window r.buffer r.capacity r.tail q
    pub small : r.capacity < u64_mod
    pub head_at : r.head ≡ (r.tail + length q) % r.capacity

  -- One copy in: the window grows, and the head stands behind it again.
  pub write_run-Run :
      (r : Ring A) (q ys : List A)
      → Run r q
      → r.head + length ys ≤ r.capacity
      → length q + length ys ≤ r.capacity
      → Run (write_run r ys) (q ++ ys)
  unfolding write_run
  write_run-Run r q ys run room fits = record {
    held = blit-Window r.buffer r.capacity r.tail q ys r.head run.held run.head_at room fits;
    small = run.small;
    head_at =
        rw length-append
          (advance_head r.capacity r.tail (length q) (length ys) r.head run.head_at room run.small);
  }

  pub start : (r : Ring A) (q : List A) → Models r q → Run r q
  start r q m = record { held = m.window; small = m.counts.small; head_at = m.counts.head_at }

  pub capacity-write_run : (r : Ring A) (ys : List A) → (write_run r ys).capacity ≡ r.capacity
  unfolding write_run
  capacity-write_run r ys = refl

  -- With the copies made, the flag is set as `full` means.
  pub closed-Models :
      (r : Ring A) (q : List A)
      → Run r q
      → 0 < length q
      → Models (record r { full = r.head == r.tail }) q
  closed-Models r q run pos = record {
    window = run.held;
    counts = record {
      small = run.small;
      tail_in = run.held.tail_in;
      fits = run.held.fits;
      head_at = run.head_at;
      full_at =
          rw run.head_at
            (full_test r.capacity r.tail (length q) run.held.tail_in pos run.held.fits);
    };
  }

  -- One copy out: the window loses its oldest elements.
  pub read_run-Run :
      (r : Ring A) (q : List A) (k : ℕ)
      → Run r q
      → k ≤ length q
      → r.tail + k ≤ r.capacity
      → Run (read_run r k) (drop k q)
  unfolding read_run
  read_run-Run r q k run h room = record {
    held = rw moved (drop-Window r.buffer r.capacity r.tail q k run.held h);
    small = run.small;
    head_at = rw (moved, length-drop) (run.head_at ∙ rest);
  }
    where
      moved : add64 r.tail k % r.capacity ≡ (r.tail + k) % r.capacity
      moved = advance_tail r.capacity r.tail k room run.small

      rest :
          (r.tail + length q) % r.capacity
          ≡ ((r.tail + k) % r.capacity + (length q - k)) % r.capacity
      rest =
          ap (λ (n : ℕ). (r.tail + n) % r.capacity) (omega arith)
          ∙ shorten r.capacity r.tail k (length q - k)

  -- A ring that cannot be full needs no flag.
  pub open-Models :
      (r : Ring A) (q : List A) → Run r q → r.full ≡ false → length q < r.capacity → Models r q
  open-Models r q run e h = record {
    window = run.held;
    counts = record {
      small = run.small;
      tail_in = run.held.tail_in;
      fits = run.held.fits;
      head_at = run.head_at;
      full_at = ground (arith, e);
    };
  }
