-- ===== src/HashMap/Resize.antt =====
-- `chm_resize`: moving every entry into a table of another size keeps every lookup.
use mathlib.Core.Path.{ap}
use mathlib.Core.List.{flatten}
use redlib.Prelude.{
  ℕ, zero, suc, ◌+◌, ◌<◌, ◌≡◌, ◌≢◌, refl, sym, ◌∙◌, Bool, true, List, [], ◌∷◌, Option, none, some,
  arith, length, get_or, replicate, if◌then◌else◌, Bool-cases, inl, inr, bit_and, sub64, length-set,
  length-replicate,
}
use redlib.HashMap.{Entry, push_front, move_chain, move_all}
use redlib.HashMap.Keys.{DecidesKeys, eq_refl}
use redlib.HashMap.Chains.{All, lookup, Distinct, lookup_congr}
use redlib.HashMap.Table.{
  Each-get, Each-set, Each-replicate, length-flatten-set, get_or-replicate, home, Sits, IsBucket,
  IsPlaced, view, view-set,
}
use redlib.HashMap.Flatten.{
  or_else, move_all-flatten, lookup-flatten, Distinct-flatten, AllHashed-flatten,
}

flatten-replicate : (n : ℕ) → let bs : List (List Entry) = replicate n [] in flatten bs ≡ []
unfolding flatten
flatten-replicate zero = refl
flatten-replicate (suc n) = flatten-replicate n

or_else-none : (o : Option ℕ) → or_else o none ≡ o
or_else-none none = refl
or_else-none (some v) = refl

module _ (hash : List ℕ → ℕ) (eq : List ℕ → List ℕ → Bool) (decides : DecidesKeys eq)
    (cap : ℕ) where
  -- A table of `n` buckets that reads as `f` and holds `total` entries.
  pub record Reads (n total : ℕ) (f : List ℕ → Option ℕ) (cs : List (List Entry)) : Type 0 where
    pub placed : IsPlaced hash eq cap 0 cs
    pub width : length cs ≡ n
    pub entries : length (flatten cs) ≡ total
    pub reads : (q : List ℕ) → view hash eq cap cs q ≡ f q

  -- A new entry in front of its bucket, under a key that the table does not hold.
  pub push_front-Reads :
      (cs : List (List Entry)) (e : Entry)
      → IsPlaced hash eq cap 0 cs
      → home hash eq cap e.key < length cs
      → e.hash ≡ hash e.key
      → view hash eq cap cs e.key ≡ none
      → Reads
          (length cs)
          (length (flatten cs) + 1)
          (λ q. if eq e.key q then some e.value else view hash eq cap cs q)
          (push_front cs (home hash eq cap e.key) e)
  unfolding push_front
  push_front-Reads cs e p inside hashed absent = record {
    placed =
        Each-set (IsBucket hash eq cap) 0 (home hash eq cap e.key) cs _ p
          ((sits, old.0), (absent, old.1));
    width = length-set cs _ _;
    entries = omega (
      arith,
      length-flatten-set cs (home hash eq cap e.key) (e ∷ get_or cs (home hash eq cap e.key) [])
          inside,
    );
    reads = view-set hash eq cap decides cs e.key (some e.value) _ inside (λ q. refl);
  }
    where
      old :
          IsBucket hash eq cap (0 + home hash eq cap e.key) (get_or cs (home hash eq cap e.key) [])
      old = Each-get (IsBucket hash eq cap) 0 (home hash eq cap e.key) cs p inside

      sits : Sits hash eq cap (0 + home hash eq cap e.key) e
      sits = (hashed, ap (λ h. bit_and h (sub64 cap 1)) hashed ∙ omega arith)

  -- The loop over entries that the new table does not hold yet.
  pub move_chain-Reads :
      (es : List Entry) (nb : List (List Entry))
      → IsPlaced hash eq cap 0 nb
      → ((k : List ℕ) → home hash eq cap k < length nb)
      → All (λ (e : Entry). e.hash ≡ hash e.key) es
      → Distinct eq es
      → ((q : List ℕ) → lookup eq q es ≢ none → view hash eq cap nb q ≡ none)
      → Reads
          (length nb)
          (length (flatten nb) + length es)
          (λ q. or_else (lookup eq q es) (view hash eq cap nb q))
          (move_chain cap es nb)
  unfolding move_chain
  move_chain-Reads [] nb p inside hashed distinct apart = record {
    placed = p;
    width = refl;
    entries = omega arith;
    reads = λ q. refl;
  }
  move_chain-Reads (e ∷ es) nb p inside hashed distinct apart =
      let at : bit_and e.hash (sub64 cap 1) ≡ home hash eq cap e.key =
        ap (λ h. bit_and h (sub64 cap 1)) hashed.0 in
      let step =
        push_front-Reads nb e p (inside e.key) hashed.0
          (apart e.key (ground (arith, eq_refl decides e.key))) in
      let rest =
        move_chain-Reads es (push_front nb (home hash eq cap e.key) e) step.placed
          (λ k. rw step.width (inside k)) hashed.1 distinct.1 (later step) in
      rw at (record {
        placed = rest.placed;
        width = rest.width ∙ step.width;
        entries = omega (arith, rest.entries, step.entries);
        reads = λ q. rest.reads q ∙ ap (or_else (lookup eq q es)) (step.reads q) ∙ first_wins q;
      })
    where
      taken : (q : List ℕ) → eq e.key q ≡ true → lookup eq q es ≡ none
      taken q same = sym (lookup_congr eq decides e.key q es same) ∙ distinct.0

      first_wins :
          (q : List ℕ)
          → or_else (lookup eq q es) (if eq e.key q then some e.value else view hash eq cap nb q)
            ≡ or_else (lookup eq q (e ∷ es)) (view hash eq cap nb q)
      first_wins q = elim (Bool-cases (eq e.key q)) [
        | inl same ↦ rw (same, taken q same)
        | inr other ↦ rw other
      ]

      later :
          Reads
            (length nb)
            (length (flatten nb) + 1)
            (λ q. if eq e.key q then some e.value else view hash eq cap nb q)
            (push_front nb (home hash eq cap e.key) e)
          → (q : List ℕ) → lookup eq q es ≢ none
          → view hash eq cap (push_front nb (home hash eq cap e.key) e) q ≡ none
      later step q held = step.reads q ∙ elim (Bool-cases (eq e.key q)) [
        | inl same ↦ absurd (held (taken q same))
        | inr other ↦ rw other (apart q (rw other held))
      ]

  -- An empty table.
  pub replicate-Reads :
      (n : ℕ) → let bs : List (List Entry) = replicate n [] in Reads n 0 (λ _. none) bs
  replicate-Reads n = record {
    placed = Each-replicate (IsBucket hash eq cap) 0 n (λ i. (tt, tt));
    width = length-replicate n [];
    entries = ap length (flatten-replicate n);
    reads = λ q. rw get_or-replicate;
  }

  -- All entries of a table of any other size, moved into an empty one of `n` buckets.
  pub move_all-Reads :
      (old n : ℕ) (cs : List (List Entry))
      → IsPlaced hash eq old 0 cs
      → ((k : List ℕ) → home hash eq cap k < n)
      → Reads n
          (length (flatten cs))
          (view hash eq old cs)
          (let bs : List (List Entry) = replicate n [] in move_all cap cs bs)
  move_all-Reads old n cs p inside =
      let start = replicate-Reads n in
      let bs : List (List Entry) = replicate n [] in
      let r =
        move_chain-Reads (flatten cs) bs start.placed (λ k. rw start.width (inside k))
          (AllHashed-flatten hash eq decides old 0 cs p)
          (Distinct-flatten hash eq decides old 0 cs p) (λ q _. start.reads q) in
      rw (move_all-flatten cap cs bs) (record {
        placed = r.placed;
        width = r.width ∙ start.width;
        entries = omega (arith, r.entries, start.entries);
        reads = λ q.
            r.reads q
            ∙ ap (or_else (lookup eq q (flatten cs))) (start.reads q)
            ∙ or_else-none (lookup eq q (flatten cs))
            ∙ lookup-flatten hash eq decides old cs q p;
      })
