-- ===== src/Target/IpText/Runs.antt =====
-- The run of zeros that `formatIpv6` of apps/api/src/target/ip-policy.ts leaves out.
use outscan.Prelude.{
  ℕ, zero, suc, ◌-◌, ◌≡◌, refl, sym, ap, ◌∙◌, Bool, true, false, List, [], ◌∷◌, ◌++◌, length, arith,
  ltb, ◌==◌, ==_iff, append_assoc, length-append, Bool-cases, inl, inr, if◌then◌else◌,
}
use outscan.Target.IpText.{zero_run, Run, best_run}

abbrev pub zeros : ℕ → List ℕ
zeros zero = []
zeros (suc n) = 0 ∷ zeros n

-- A run of zeros that is there.
abbrev pub Fits : List ℕ → Run → Type 0
Fits gs run =
    (before after : List ℕ) × (gs ≡ before ++ (zeros run.size ++ after))
    × (length before ≡ run.start)

zero_run_lem : (gs : List ℕ) → (after : List ℕ) × (gs ≡ zeros (zero_run gs) ++ after)
unfolding zero_run
zero_run_lem [] = ([], refl)
zero_run_lem (g ∷ gs) = elim (Bool-cases (g == 0)) [
  | inl same ↦
      let (after, e) = zero_run_lem gs in
      let here : g ≡ 0 = (==_iff g 0).0 same in
      (after, rw same (ap (λ x. x ∷ gs) here ∙ ap (λ x. 0 ∷ x) e))
  | inr other ↦ (g ∷ gs, rw other refl)
]

longer :
    (whole : List ℕ) (a b : Run) (c : Bool)
    → Fits whole a
    → Fits whole b
    → Fits whole (if c then a else b)
longer whole a b true h k = h
longer whole a b false h k = k

pub best_run_lem :
    (whole before rest : List ℕ) (index skip : ℕ) (best : Run)
    → whole ≡ before ++ rest
    → length before ≡ index
    → Fits whole best
    → Fits whole (best_run index skip best rest)
unfolding best_run
best_run_lem whole before [] index skip best e n h = h
best_run_lem whole before (g ∷ gs) index (suc skip) best e n h =
    best_run_lem whole (before ++ g ∷ []) gs (suc index) skip best
      (e ∙ sym (append_assoc before (g ∷ []) gs)) (omega (arith, n, length-append before (g ∷ [])))
      h
best_run_lem whole before (g ∷ gs) index zero best e n h =
    let size = zero_run (g ∷ gs) in
    let (after, z) = zero_run_lem (g ∷ gs) in
    best_run_lem whole (before ++ g ∷ []) gs (suc index) (size - 1)
      (if ltb best.size size then record { start = index; size = size } else best)
      (e ∙ sym (append_assoc before (g ∷ []) gs)) (omega (arith, n, length-append before (g ∷ [])))
      (longer whole (record { start = index; size = size }) best (ltb best.size size)
        (before, after, e ∙ ap (λ x. before ++ x) z, n) h)

pub length-zeros : (n : ℕ) → length (zeros n) ≡ n
length-zeros zero = refl
length-zeros (suc n) = omega (arith, length-zeros n)
