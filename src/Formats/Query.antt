-- ===== src/Formats/Query.antt =====
-- `query_parse`.
use mathlib.Core.List.{append-nil, append_assoc}
use redlib.Prelude.{
  ℕ, suc, ◌≤◌, ◌≡◌, ◌≢◌, refl, sym, ap, ◌∙◌, false, List, [], ◌∷◌, ◌++◌, none, some, All,
  All-append, arith, length, ◌==◌,
}
use redlib.Formats.{cut_at, QueryParam, param, end_segment, params_from, max_params, query_parse}

abbrev pub Lacks : ℕ → List ℕ → Type 0
Lacks sep = All (λ c. c ≢ sep)

pub cut_at-append :
    (sep : ℕ) (before behind : List ℕ)
    → Lacks sep before
    → cut_at sep (before ++ sep ∷ behind) ≡ some (before, behind)
unfolding cut_at
cut_at-append sep [] behind h = ground arith
cut_at-append sep (c ∷ before) behind h = ground (arith, h.0, cut_at-append sep before behind h.1)

pub cut_at-none : (sep : ℕ) (s : List ℕ) → Lacks sep s → cut_at sep s ≡ none
unfolding cut_at
cut_at-none sep [] h = refl
cut_at-none sep (c ∷ s) h = ground (arith, h.0, cut_at-none sep s h.1)

longer_segment :
    (seg : List ℕ) (c : ℕ) (s : List ℕ)
    → c ≢ b'&'
    → params_from seg (c ∷ s) ≡ params_from (seg ++ c ∷ []) s
unfolding params_from
longer_segment seg c s h = let e : (c == b'&') ≡ false = ground (arith, h) in rw e refl

-- The bytes of a segment are read one by one.
params_from-segment :
    (seg s t : List ℕ) → Lacks b'&' s → params_from seg (s ++ t) ≡ params_from (seg ++ s) t
params_from-segment seg [] t h = ap (λ u. params_from u t) (sym (append-nil seg))
params_from-segment seg (c ∷ s) t h =
    step
    ∙ params_from-segment (seg ++ c ∷ []) s t h.1
    ∙ ap (λ u. params_from u t) (append_assoc seg (c ∷ []) s)
  where
    step : params_from seg (c ∷ (s ++ t)) ≡ params_from (seg ++ c ∷ []) (s ++ t)
    step = longer_segment seg c (s ++ t) h.0

-- A parameter as it stands in a query, the others behind it.
abbrev pub written : QueryParam → List ℕ
written p = p.key ++ b'=' ∷ p.value

abbrev pub joined : List QueryParam → List ℕ
joined [] = []
joined (p ∷ []) = written p
joined (p ∷ q ∷ ps) = written p ++ b'&' ∷ joined (q ∷ ps)

-- What a key and a value must not hold to be read back.
abbrev pub IsPlain : QueryParam → Type 0
IsPlain p = Lacks b'=' p.key × Lacks b'&' p.key × Lacks b'&' p.value

ending :
    (k v : List ℕ) (ps : List QueryParam)
    → cut_at b'=' (k ++ b'=' ∷ v) ≡ some (k, v)
    → end_segment (k ++ b'=' ∷ v) ps ≡ record { key = k; value = v } ∷ ps
unfolding end_segment
ending [] v ps cut = refl
ending (c ∷ k) v ps cut = rw (param, cut) refl

end_segment-written :
    (p : QueryParam) (ps : List QueryParam) → Lacks b'=' p.key → end_segment (written p) ps ≡ p ∷ ps
end_segment-written p ps h = ending p.key p.value ps (cut_at-append b'=' p.key p.value h)

written-Lacks : (p : QueryParam) → IsPlain p → Lacks b'&' (written p)
written-Lacks p (_, k, v) = All-append (λ c. c ≢ b'&') p.key (b'=' ∷ p.value) k (omega arith, v)

params_from-joined : (ps : List QueryParam) → All IsPlain ps → params_from [] (joined ps) ≡ ps
unfolding params_from
params_from-joined [] h = unfold end_segment in refl
params_from-joined (p ∷ []) (plain, rest) =
    ap (params_from []) (sym (append-nil (written p)))
    ∙ params_from-segment [] (written p) [] (written-Lacks p plain)
    ∙ end_segment-written p [] plain.0
params_from-joined (p ∷ q ∷ ps) (plain, rest) =
    params_from-segment [] (written p) (b'&' ∷ joined (q ∷ ps)) (written-Lacks p plain)
    ∙ end_segment-written p (params_from [] (joined (q ∷ ps))) plain.0
    ∙ ap (◌∷◌ p) (params_from-joined (q ∷ ps) rest)

query_parse-eq : (s : List ℕ) → query_parse s ≡ params_from [] s
unfolding query_parse
query_parse-eq [] = refl
query_parse-eq (c ∷ s) = refl

-- A query that is written from parameters is parsed to them, if no key holds `=` or `&` and no
-- value holds `&`.
pub query_parse-joined : (ps : List QueryParam) → All IsPlain ps → query_parse (joined ps) ≡ ps
query_parse-joined ps h = query_parse-eq (joined ps) ∙ params_from-joined ps h

end_segment-le :
    (seg : List ℕ) (ps : List QueryParam) → length (end_segment seg ps) ≤ suc (length ps)
unfolding end_segment
end_segment-le [] ps = omega arith
end_segment-le (c ∷ seg) ps = omega arith

params_from-le : (seg s : List ℕ) → length (params_from seg s) ≤ max_params s
unfolding params_from max_params
params_from-le seg [] = end_segment-le seg []
params_from-le seg (c ∷ s) = ground (
  arith,
  end_segment-le seg (params_from [] s),
  params_from-le [] s,
  params_from-le (seg ++ c ∷ []) s,
)

-- No more parameters are written than slots are allocated.
pub query_parse-le-max_params : (s : List ℕ) → length (query_parse s) ≤ max_params s
query_parse-le-max_params s = rw (query_parse-eq s) (params_from-le [] s)
