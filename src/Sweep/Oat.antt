-- ===== src/Sweep/Oat.antt =====
-- sweep.py: the runs of a one-at-a-time sweep.
use openleo.Prelude.{
  bind_some, check-some, some_injective, ℕ, suc, ◌≤◌, leb, true, false, if_split, Option, none,
  some, List, [], ◌∷◌, ◌++◌, length, length-append, ◌≡◌, refl, arith, sym, ap, subst, ◌∙◌,
}
use openleo.Json.{Value, Items, nil, cons}
use openleo.Json.Equal.{equal}
use openleo.Json.Texts.{Text, text}
use openleo.Patch.{replace, apply_at, value_at}
use openleo.Sweep.Data.{Parameter}
use openleo.Sweep.Ids.{run_id}
use openleo.Sweep.Grid.{replaced_value, generated-normalise}
use openleo.Sweep.Runs.{
  SweepRun, Extent, Clock, varied, count_oat, is_nominal, are_nominal, generated, labelled,
  oat_values, oat_runs, expand_oat,
}

-- The values, in their order, that are not equal to the nominal one.
pub data AreOthers (nominal : Value) : Items → List Value → Type 0 where
  no_values : AreOthers nominal nil []
  skipped :
      {v : Value} {vs : Items} {l : List Value}
      → equal v nominal ≡ true
      → AreOthers nominal vs l
      → AreOthers nominal (cons v vs) l
  kept :
      {v : Value} {vs : Items} {l : List Value}
      → equal v nominal ≡ false
      → AreOthers nominal vs l
      → AreOthers nominal (cons v vs) (v ∷ l)

varied-AreOthers : (n : Value) (l : Items) → AreOthers n l (varied (some n) l)
varied-AreOthers n nil = no_values
varied-AreOthers n (cons v l) =
    if_split (AreOthers n (cons v l)) (equal v n) (λ e. skipped e (varied-AreOthers n l))
      (λ e. kept e (varied-AreOthers n l))

-- A nominal value, and a value of the base document at the place that is equal to it.
abbrev pub IsNominal : Value → Parameter → Value → Type 0
IsNominal base p n =
    (p.nominal ≡ some n)
    × ((current : Value) × (value_at p.place base ≡ some current) × (equal current n ≡ true))

nominal_parts :
    (at nominal : Option Value)
    → elim at [
      | none ↦ false
      | some current ↦ elim nominal [ none ↦ false | some n ↦ equal current n ]
    ]
      ≡ true
    → (n : Value) × (current : Value) × (nominal ≡ some n)
      × (at ≡ some current)
      × (equal current n ≡ true)
nominal_parts none nominal h = absurd (cc)
nominal_parts (some current) none h = absurd (cc)
nominal_parts (some current) (some n) h = (n, current, refl, refl, h)

is_nominal-IsNominal :
    (base : Value) (p : Parameter) → is_nominal base p ≡ true → (n : Value) × IsNominal base p n
is_nominal-IsNominal base p h =
    let (n, current, e, at, same) = nominal_parts (value_at p.place base) p.nominal h in
    (n, (e, (current, at, same)))

module _ (clock : Clock) (normalise : Value → Option Value) (value_text : Value → Text) where
  -- The run is of the clipped document with one value of the parameter in its place.
  abbrev pub IsOatRun : Value → Parameter → Value → SweepRun → Type 0
  IsOatRun clipped p v run =
      (patched : Value) × (apply_at replace (some v) p.place clipped ≡ some patched)
      × (value_at p.place patched ≡ some v)
      × (normalise patched ≡ some run.document)

  -- The runs of the values of one parameter, then those of the parameters after it.
  abbrev AreRest :
      (List SweepRun → Type 0) → Value → Parameter → List Value → List SweepRun → Type 0
  AreRest After clipped p [] rs = After rs
  AreRest After clipped p (v ∷ l) [] = ⊥
  AreRest After clipped p (v ∷ l) (r ∷ rs) = IsOatRun clipped p v r × AreRest After clipped p l rs

  -- The runs of the parameters in turn, for each its values that are not equal to the nominal one,
  -- which is the value of the base document.
  abbrev pub AreOatRuns : Value → Value → List Parameter → List SweepRun → Type 0
  AreOatRuns base clipped [] rs = rs ≡ []
  AreOatRuns base clipped (p ∷ ps) rs =
      (n : Value) × (others : List Value) × IsNominal base p n
      × AreOthers n p.values others
      × AreRest (AreOatRuns base clipped ps) clipped p others rs

  oat_values-AreRest :
      (extent : Extent) (clipped : Value) (p : Parameter) (l : List Value)
      (After : List SweepRun → Type 0) (runs rest : List SweepRun)
      → After rest
      → oat_values clock normalise value_text extent clipped p l ≡ some runs
      → (length runs ≡ length l) × AreRest After clipped p l (runs ++ rest)
  unfolding oat_values
  oat_values-AreRest extent clipped p [] After runs rest a h =
      subst (λ rs. (length rs ≡ 0) × After (rs ++ rest)) (some_injective h) (refl, a)
  oat_values-AreRest extent clipped p (v ∷ l) After runs rest a h =
      let d = bind_some (apply_at replace (some v) p.place clipped) _ h in
      let i = bind_some (run_id (text "oat:" ++ p.path ++ text "=" ++ value_text v)) _ d.2 in
      let g =
        bind_some
          (generated clock normalise value_text extent i.0
            (labelled clock normalise value_text p.path v) d.0)
          _ i.2 in
      let r = bind_some (oat_values clock normalise value_text extent clipped p l) _ g.2 in
      let ih = oat_values-AreRest extent clipped p l After r.0 rest a r.1 in
      subst (λ rs. (length rs ≡ suc (length l)) × AreRest After clipped p (v ∷ l) (rs ++ rest))
        (some_injective r.2)
        (
          ap suc ih.0,
          (
            (
              d.0,
              d.1,
              replaced_value clipped d.0 p.place v d.1,
              generated-normalise clock normalise value_text extent i.0
                  (labelled clock normalise value_text p.path v) d.0 g.0 g.1,
            ),
            ih.1,
          ),
        )

  oat_runs-AreOatRuns :
      (extent : Extent) (base clipped : Value) (ps : List Parameter) (runs : List SweepRun)
      → are_nominal base ps ≡ true
      → oat_runs clock normalise value_text extent clipped ps ≡ some runs
      → (suc (length runs) ≡ count_oat ps) × AreOatRuns base clipped ps runs
  unfolding oat_runs count_oat
  oat_runs-AreOatRuns extent base clipped [] runs same h =
      subst (λ rs. (suc (length rs) ≡ 1) × AreOatRuns base clipped [] rs) (some_injective h)
        (refl, refl)
  oat_runs-AreOatRuns extent base clipped (p ∷ ps) runs same h =
      let own : is_nominal base p ≡ true = ground arith in
      let after : are_nominal base ps ≡ true = ground arith in
      let (n, nominal) = is_nominal-IsNominal base p own in
      let f =
        bind_some
          (oat_values clock normalise value_text extent clipped p (varied p.nominal p.values)) _
          h in
      let r = bind_some (oat_runs clock normalise value_text extent clipped ps) _ f.2 in
      let ih = oat_runs-AreOatRuns extent base clipped ps r.0 after r.1 in
      let now =
        oat_values-AreRest extent clipped p (varied p.nominal p.values) (AreOatRuns base clipped ps)
          f.0 r.0 ih.1 f.1 in
      let others =
        subst (λ m. AreOthers n p.values (varied m p.values)) (sym nominal.0)
          (varied-AreOthers n p.values) in
      subst (λ rs. (suc (length rs) ≡ count_oat (p ∷ ps)) × AreOatRuns base clipped (p ∷ ps) rs)
        (some_injective r.2)
        (
          let total = length-append f.0 r.0 in omega (arith, total, now.0, ih.0),
          (n, varied p.nominal p.values, nominal, others, now.1),
        )

  -- A one-at-a-time sweep has a run of the clipped base scenario itself and then, in order, for each
  -- parameter one run for each of its values that is not equal to its nominal value, of the clipped
  -- document with that value in its place, and no others. The nominal values are equal to those of the
  -- base document. The runs are as many as the sweep counts in advance, at most the limit.
  pub expand_oat-AreOatRuns :
      (extent : Extent) (maximum : ℕ) (base clipped : Value) (ps : List Parameter)
      (runs : List SweepRun)
      → expand_oat clock normalise value_text extent maximum base clipped ps ≡ some runs
      → (nominal : SweepRun) × (rest : List SweepRun) × (runs ≡ nominal ∷ rest)
        × (normalise clipped ≡ some nominal.document)
        × AreOatRuns base clipped ps rest
        × (length runs ≡ count_oat ps)
        × (length runs ≤ maximum)
  unfolding expand_oat
  expand_oat-AreOatRuns extent maximum base clipped ps runs h =
      let few = check-some (leb (count_oat ps) maximum) h in
      let same = check-some (are_nominal base ps) few.1 in
      let i = bind_some (run_id (text "oat:nominal")) _ same.1 in
      let g =
        bind_some (generated clock normalise value_text extent i.0 (text "nominal") clipped) _
          i.2 in
      let r = bind_some (oat_runs clock normalise value_text extent clipped ps) _ g.2 in
      let all = oat_runs-AreOatRuns extent base clipped ps r.0 same.0 r.1 in
      let shape = sym (some_injective r.2) in
      let total = ap length shape ∙ all.0 in
      (
        g.0,
        r.0,
        shape,
        generated-normalise clock normalise value_text extent i.0 (text "nominal") clipped g.0 g.1,
        all.1,
        total,
        let small = few.0 in ground arith,
      )
