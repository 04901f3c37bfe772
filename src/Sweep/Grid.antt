-- ===== src/Sweep/Grid.antt =====
-- sweep.py: the runs of a grid have each parameter's values, whatever the others are.
use openleo.Prelude.{
  bind_some, check-some, some_injective, ◌>>=◌, ℕ, suc, ◌+◌, ◌*◌, ◌≤◌, leb, false, not, Option,
  some, List, [], ◌∷◌, ◌++◌, length, length-append, All, In, here, there, ◌≡◌, refl, arith, sym, ap,
  subst, ◌∙◌,
}
use openleo.Json.{Value, Items, nil, cons, to_list, member}
use openleo.Json.Texts.{Text, text}
use openleo.Patch.{replace, apply_at, value_at, overlap}
use openleo.Patch.Frame.{Replaced, replace-Replaced, replace-value_at}
use openleo.Patch.Pointer.{tokens}
use openleo.Sweep.Data.{Mode, grid, Parameter, object_of, max_runs}
use openleo.Sweep.Checks.{only, unique_from, array_in}
use openleo.Sweep.Ids.{run_id, decimal}
use openleo.Sweep.Spec.{path_of, overlaps_any, nominal_of, parameter, parameters_from}
use openleo.Sweep.Runs.{
  SweepRun, Extent, Clock, prefixed, each, product, replace_all, count_combinations, have_values,
  generated, fits_extent, grid_label, grid_runs, expand_grid,
}

-- No parameter is at, under or above an earlier one.
abbrev pub Apart : List Parameter → Type 0
Apart [] = Unit
Apart (p ∷ l) = All (λ (q : Parameter). overlap q.place p.place ≡ false) l × Apart l

replace_frame :
    (doc d : Value) (place : List Text) (v : Value) (us : List Text)
    → apply_at replace (some v) place doc ≡ some d
    → overlap place us ≡ false
    → (value_at place d ≡ some v) × (value_at us d ≡ value_at us doc)
replace_frame doc d [] v us h o = cc
replace_frame doc d (t ∷ ts) v us h o = replace-value_at doc t ts v d us h o

-- Nothing that no parameter overlaps changes.
replace_all-frame :
    (doc d : Value) (ps : List Parameter) (vs : List Value) (us : List Text)
    → replace_all doc ps vs ≡ some d
    → All (λ (p : Parameter). overlap p.place us ≡ false) ps
    → value_at us d ≡ value_at us doc
unfolding replace_all
replace_all-frame doc d [] [] us h o = ap (value_at us) (sym (some_injective h))
replace_all-frame doc d [] (v ∷ vs) us h o = cc
replace_all-frame doc d (p ∷ ps) [] us h o = cc
replace_all-frame doc d (p ∷ ps) (v ∷ vs) us h o =
    let r = bind_some (apply_at replace (some v) p.place doc) (λ e. replace_all e ps vs) h in
    replace_all-frame r.0 d ps vs us r.2 o.1 ∙ (replace_frame doc r.0 p.place v us r.1 o.0).1

-- Each parameter has its value.
abbrev pub HasValues : Value → List Parameter → List Value → Type 0
HasValues d [] [] = Unit
HasValues d (p ∷ ps) (v ∷ vs) = (value_at p.place d ≡ some v) × HasValues d ps vs
HasValues d _ _ = ⊥

pub replaced_value :
    (doc d : Value) (place : List Text) (v : Value)
    → apply_at replace (some v) place doc ≡ some d
    → value_at place d ≡ some v
unfolding apply_at
replaced_value doc d [] v h = cc
replaced_value doc d (t ∷ ts) v h =
    (subst (Replaced doc (t ∷ ts) v) h (replace-Replaced t ts v doc)).0

replace_all-HasValues :
    (doc d : Value) (ps : List Parameter) (vs : List Value)
    → Apart ps
    → replace_all doc ps vs ≡ some d
    → HasValues d ps vs
unfolding replace_all
replace_all-HasValues doc d [] [] a h = tt
replace_all-HasValues doc d [] (v ∷ vs) a h = cc
replace_all-HasValues doc d (p ∷ ps) [] a h = cc
replace_all-HasValues doc d (p ∷ ps) (v ∷ vs) a h =
    let r = bind_some (apply_at replace (some v) p.place doc) (λ e. replace_all e ps vs) h in
    (
      replace_all-frame r.0 d ps vs p.place r.2 a.0 ∙ replaced_value doc r.0 p.place v r.1,
      replace_all-HasValues r.0 d ps vs a.1 r.2,
    )

length-prefixed : (v : Value) (l : List (List Value)) → length (prefixed v l) ≡ length l
length-prefixed v [] = refl
length-prefixed v (c ∷ l) = ap suc (length-prefixed v l)

length-each :
    (l : Items) (rest : List (List Value)) → length (each l rest) ≡ length (to_list l) * length rest
length-each nil rest = omega arith
length-each (cons v l) rest =
    let total = length-append (prefixed v rest) (each l rest) in
    omega (arith, total, length-prefixed v rest, length-each l rest)

length-product : (ps : List Parameter) → length (product ps) ≡ count_combinations ps
unfolding product
length-product [] = refl
length-product (p ∷ ps) =
    length-each p.values (product ps) ∙ ap (λ n. length (to_list p.values) * n) (length-product ps)

module _ (clock : Clock) (normalise : Value → Option Value) (value_text : Value → Text) where
  -- The run is of a document with the combination's values.
  abbrev pub IsGridRun : Value → List Parameter → List Value → SweepRun → Type 0
  IsGridRun clipped ps c run =
      (patched : Value) × (replace_all clipped ps c ≡ some patched)
      × HasValues patched ps c
      × (normalise patched ≡ some run.document)

  abbrev pub AreGridRuns : Value → List Parameter → List (List Value) → List SweepRun → Type 0
  AreGridRuns clipped ps [] [] = Unit
  AreGridRuns clipped ps (c ∷ l) (r ∷ rs) = IsGridRun clipped ps c r × AreGridRuns clipped ps l rs
  AreGridRuns clipped ps _ _ = ⊥

  pub generated-normalise :
      (extent : Extent) (id label : Text) (patched : Value) (run : SweepRun)
      → generated clock normalise value_text extent id label patched ≡ some run
      → normalise patched ≡ some run.document
  unfolding generated
  generated-normalise extent id label patched run h =
      let d = bind_some (normalise patched) _ h in
      let f = bind_some (fits_extent clock normalise value_text d.0 extent) _ d.2 in
      let c = check-some f.0 f.2 in
      d.1 ∙ ap (λ (r : SweepRun). some r.document) (some_injective c.1)

  grid_runs-AreGridRuns :
      (extent : Extent) (clipped : Value) (ps : List Parameter) (number : ℕ) (l : List (List Value))
      (runs : List SweepRun)
      → Apart ps
      → grid_runs clock normalise value_text extent clipped ps number l ≡ some runs
      → (length runs ≡ length l) × AreGridRuns clipped ps l runs
  unfolding grid_runs
  grid_runs-AreGridRuns extent clipped ps number [] runs a h =
      subst (λ rs. (length rs ≡ 0) × AreGridRuns clipped ps [] rs) (some_injective h) (refl, tt)
  grid_runs-AreGridRuns extent clipped ps number (c ∷ l) runs a h =
      let p = bind_some (replace_all clipped ps c) _ h in
      let i = bind_some (run_id (text "grid:" ++ decimal number)) _ p.2 in
      let g =
        bind_some
          (generated clock normalise value_text extent i.0
            (grid_label clock normalise value_text ps c) p.0)
          _ i.2 in
      let r =
        bind_some (grid_runs clock normalise value_text extent clipped ps (number + 1) l) _ g.2 in
      let ih = grid_runs-AreGridRuns extent clipped ps (number + 1) l r.0 a r.1 in
      subst (λ rs. (length rs ≡ suc (length l)) × AreGridRuns clipped ps (c ∷ l) rs)
        (some_injective r.2)
        (
          ap suc ih.0,
          (
            (
              p.0,
              p.1,
              replace_all-HasValues clipped p.0 ps c a p.1,
              generated-normalise extent i.0 (grid_label clock normalise value_text ps c) p.0 g.0
                  g.1,
            ),
            ih.1,
          ),
        )

-- The parameters that a sweep document is accepted with are apart.
parameter-apart :
    (mode : Mode) (seen : List (List Text)) (item : Value) (p : Parameter)
    → parameter mode seen item ≡ some p
    → overlaps_any p.place seen ≡ false
unfolding parameter
parameter-apart mode seen item p h =
    let fs = bind_some (object_of item) _ h in
    let only_keys =
      check-some (only (text "path" ∷ text "values" ∷ []) (text "nominal" ∷ []) fs.0) fs.2 in
    let path = bind_some (member (text "path") fs.0 >>= path_of) _ only_keys.1 in
    let ts = bind_some (tokens path.0) _ path.2 in
    let free = check-some (not (overlaps_any ts.0 seen)) ts.2 in
    let values = bind_some (member (text "values") fs.0 >>= array_in 1 max_runs) _ free.1 in
    let distinct = check-some (unique_from nil values.0) values.2 in
    let nominal = bind_some (nominal_of mode fs.0 values.0) _ distinct.1 in
    subst (λ (q : Parameter). overlaps_any q.place seen ≡ false) (some_injective nominal.2)
      (ground (arith, free.0))

overlaps_any-All :
    (ts : List Text) (seen : List (List Text))
    → overlaps_any ts seen ≡ false
    → All (λ us. overlap ts us ≡ false) seen
overlaps_any-All ts [] h = tt
overlaps_any-All ts (us ∷ l) h = (ground (arith, h), overlaps_any-All ts l (ground (arith, h)))

-- The parameters and the pointers before them.
abbrev ApartFrom : List (List Text) → List Parameter → Type 0
ApartFrom seen [] = Unit
ApartFrom seen (p ∷ l) = (overlaps_any p.place seen ≡ false) × ApartFrom (p.place ∷ seen) l

ApartFrom-All :
    (us : List Text) (seen : List (List Text)) (ps : List Parameter)
    → ApartFrom seen ps
    → In us seen
    → All (λ (q : Parameter). overlap q.place us ≡ false) ps
ApartFrom-All us seen [] h i = tt
ApartFrom-All us seen (p ∷ l) h i = (
  All_at us (overlaps_any-All p.place seen h.0) i,
  ApartFrom-All us (p.place ∷ seen) l h.1 (there i),
)
  where
    All_at :
        (us : List Text) {seen : List (List Text)}
        → All (λ us. overlap p.place us ≡ false) seen
        → In us seen
        → overlap p.place us ≡ false
    All_at us a (here e) = subst (λ x. overlap p.place x ≡ false) (sym e) a.0
    All_at us a (there i) = All_at us a.1 i

ApartFrom-Apart : (seen : List (List Text)) (ps : List Parameter) → ApartFrom seen ps → Apart ps
ApartFrom-Apart seen [] h = tt
ApartFrom-Apart seen (p ∷ l) h = (
  ApartFrom-All p.place (p.place ∷ seen) l h.1 (here refl),
  ApartFrom-Apart (p.place ∷ seen) l h.1,
)

parameters_from-ApartFrom :
    (mode : Mode) (seen : List (List Text)) (items : Items) (ps : List Parameter)
    → parameters_from mode seen items ≡ some ps
    → ApartFrom seen ps
unfolding parameters_from
parameters_from-ApartFrom mode seen nil ps h = subst (ApartFrom seen) (some_injective h) tt
parameters_from-ApartFrom mode seen (cons item l) ps h =
    let p = bind_some (parameter mode seen item) _ h in
    let r = bind_some (parameters_from mode (p.0.place ∷ seen) l) _ p.2 in
    subst (ApartFrom seen) (some_injective r.2) (
      parameter-apart mode seen item p.0 p.1,
      parameters_from-ApartFrom mode (p.0.place ∷ seen) l r.0 r.1,
    )

-- A grid over the parameters that a sweep document was accepted with has one run for each
-- combination of their values, in the order of `product`, and no more than the limit; each run is the
-- scenario of a document in which every parameter has its value of the combination.
pub expand_grid-AreGridRuns :
    (clock : Clock) (normalise : Value → Option Value) (value_text : Value → Text) (items : Items)
    (ps : List Parameter) (extent : Extent) (maximum : ℕ) (base clipped : Value)
    (runs : List SweepRun)
    → parameters_from grid [] items ≡ some ps
    → expand_grid clock normalise value_text extent maximum base clipped ps ≡ some runs
    → (length runs ≡ count_combinations ps)
      × (length runs ≤ maximum)
      × AreGridRuns clock normalise value_text clipped ps (product ps) runs
unfolding expand_grid
expand_grid-AreGridRuns clock normalise value_text items ps extent maximum base clipped runs parsed
      h =
    let few = check-some (leb (count_combinations ps) maximum) h in
    let held = check-some (have_values base ps) few.1 in
    let apart = ApartFrom-Apart [] ps (parameters_from-ApartFrom grid [] items ps parsed) in
    let r =
      grid_runs-AreGridRuns clock normalise value_text extent clipped ps 0 (product ps) runs apart
        held.1 in
    let total = r.0 ∙ length-product ps in (total, let small = few.0 in ground arith, r.1)
