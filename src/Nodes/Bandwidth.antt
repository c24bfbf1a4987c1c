-- ===== src/Nodes/Bandwidth.antt =====
-- `measureBandwidth` (tuna.go). The jobs run side by side and share the measurement store and the
-- list of results, so a run is the list of their ends, in the order in which they happen.
use mathlib.Core.Option
use tuna.Common.Dict.{Dict}
use tuna.Common.Int.{ℤ, pos}
use tuna.Net.{Net}
use tuna.Wire.{ServiceMetadata}
use tuna.Storage.{FloatOps, FavoriteNode, AvoidNode, add_favorite_node}
use tuna.Storage.Avoid.{AvoidNodes, add_avoid_node}
use tuna.Nodes.{Node, Sorter, less_bandwidth, IsWeakOrder, weak_bandwidth}
use tuna.Common.{
  ℕ, ◌+◌, ◌≡◌, refl, sym, ap, ◌∙◌, subst, ◌↔◌, Bool, true, false, ◌||◌, Option, none, some, List,
  [], ◌∷◌, ◌++◌, append_assoc, append-nil, arith, leb, if◌then◌else◌, length, Any, Text,
}

-- How a job ends: no connection, a measurement that fails, or the least and the greatest bandwidth.
pub data JobEnd (F : Type 0) : Type 0 where
  unreachable measurement_failed : JobEnd F
  bandwidths : F → F → JobEnd F

pub data JobEvent (F : Type 0) : Type 0 where
  -- the job of a node ends at a time
  job : Node F → JobEnd F → ℤ → JobEvent F
  -- `MeasureBandwidthWorkersTimeout` is over
  timed_out : JobEvent F

-- The measurement store, if there is one, the results so far, and whether the context is done.
pub record Measuring (F : Type 0) : Type 0 where
  pub avoid : Option (Dict AvoidNodes)
  pub favorites : Option (Dict (FavoriteNode F))
  pub results : List (Node F)
  pub is_done : Bool

module _ (net : Net) (ops : FloatOps) where
  open ops use {Float}

  abbrev avoid_node : Node Float → AvoidNode
  avoid_node sub = record {
    ip = sub.metadata.ip;
    mask_size = pos 0;
    address = sub.address;
    expires_at = pos 0;
  }

  -- a node whose measurement fails is put on the avoid list, unless the context is done
  blame : ℤ → Node Float → Measuring Float → Measuring Float
  blame now sub s = if s.is_done then s else record s {
    avoid = Option.map (add_avoid_node net now sub.metadata.ip (avoid_node sub)) s.avoid;
  }

  favorite_node : (Float → Float) → Text → Node Float → Float → Float → FavoriteNode Float
  favorite_node per_kilo text sub least greatest = record {
    ip = sub.metadata.ip;
    address = sub.address;
    metadata = text;
    delay = sub.delay;
    min_bandwidth = per_kilo least;
    max_bandwidth = per_kilo greatest;
    expires_at = pos 0;
  }

  -- `encode` is `proto.Marshal` and base64, and may fail; `per_kilo` divides by 1024
  remember :
      (ServiceMetadata → Option Text)
      → (Float → Float)
      → ℤ
      → Node Float
      → Float
      → Float
      → Option (Dict (FavoriteNode Float))
      → Option (Dict (FavoriteNode Float))
  unfolding favorite_node
  remember encode per_kilo now sub least greatest favorites = elim (encode sub.metadata) [
    | none ↦ favorites
    | some text ↦
        Option.map
          (λ m.
            (add_favorite_node ops now sub.metadata.ip
              (favorite_node per_kilo text sub least greatest) m).1)
          favorites
  ]

  -- the end of a job with a result; enough results cancel the context
  collect : ℕ → Node Float → Float → Measuring Float → Measuring Float
  collect n sub least s = record s {
    results = s.results ++ record sub { bandwidth = least } ∷ [];
    is_done = s.is_done || leb n (length s.results + 1);
  }

  unfoldable pub job_step :
      (ServiceMetadata → Option Text)
      → (Float → Float)
      → ℕ
      → JobEvent Float
      → Measuring Float
      → Measuring Float
  unfolding blame remember collect
  job_step encode per_kilo n (job sub unreachable now) s = s
  job_step encode per_kilo n (job sub measurement_failed now) s = blame now sub s
  job_step encode per_kilo n (job sub (bandwidths least greatest) now) s =
      collect n sub least
        (record s { favorites = remember encode per_kilo now sub least greatest s.favorites })
  job_step encode per_kilo n timed_out s = record s { is_done = true }

  unfoldable pub job_run :
      (ServiceMetadata → Option Text)
      → (Float → Float)
      → ℕ
      → List (JobEvent Float)
      → Measuring Float
      → Measuring Float
  unfolding job_step
  job_run encode per_kilo n [] s = s
  job_run encode per_kilo n (e ∷ es) s =
      job_run encode per_kilo n es (job_step encode per_kilo n e s)

  -- `measureBandwidth`: the results in order, and the store afterwards
  unfoldable pub measure_bandwidth :
      Sorter (Node Float)
      → (ServiceMetadata → Option Text)
      → (Float → Float)
      → ℕ
      → List (JobEvent Float)
      → Measuring Float
      → List (Node Float) × Measuring Float
  unfolding job_run
  measure_bandwidth sorter encode per_kilo n es s =
      let s' = job_run encode per_kilo n es s in (sorter.sort (less_bandwidth ops) s'.results, s')

  -- the nodes whose measurement succeeds, with what was measured
  abbrev pub succeeded : List (JobEvent Float) → List (Node Float)
  succeeded [] = []
  succeeded (job sub (bandwidths least greatest) now ∷ es) =
      record sub { bandwidth = least } ∷ succeeded es
  succeeded (job sub unreachable now ∷ es) = succeeded es
  succeeded (job sub measurement_failed now ∷ es) = succeeded es
  succeeded (timed_out ∷ es) = succeeded es

  module _ (encode : ServiceMetadata → Option Text) (per_kilo : Float → Float) (n : ℕ) where
    blame-results :
        (now : ℤ) (sub : Node Float) (s : Measuring Float) → (blame now sub s).results ≡ s.results
    unfolding blame
    blame-results now sub s = ground arith

    blame-done :
        (now : ℤ) (sub : Node Float) (s : Measuring Float) → s.is_done ≡ true → blame now sub s ≡ s
    unfolding blame
    blame-done now sub s h = ground arith

    job_run-results :
        (es : List (JobEvent Float)) (s : Measuring Float)
        → (job_run encode per_kilo n es s).results ≡ s.results ++ succeeded es
    unfolding job_run collect
    job_run-results [] s = sym (append-nil s.results)
    job_run-results (job sub unreachable now ∷ es) s = job_run-results es s
    job_run-results (job sub measurement_failed now ∷ es) s =
        job_run-results es (blame now sub s) ∙ ap (λ l. l ++ succeeded es) (blame-results now sub s)
    job_run-results (job sub (bandwidths least greatest) now ∷ es) s =
        job_run-results es (job_step encode per_kilo n (job sub (bandwidths least greatest) now) s)
        ∙ append_assoc s.results (record sub { bandwidth = least } ∷ []) (succeeded es)
    job_run-results (timed_out ∷ es) s = job_run-results es (record s { is_done = true })

    job_run-blames :
        (es : List (JobEvent Float)) (s : Measuring Float)
        → s.is_done ≡ true
        → (job_run encode per_kilo n es s).avoid ≡ s.avoid
    unfolding job_run blame collect
    job_run-blames [] s h = refl
    job_run-blames (job sub unreachable now ∷ es) s h = job_run-blames es s h
    job_run-blames (job sub measurement_failed now ∷ es) s h =
        ap (λ (k : Measuring Float). (job_run encode per_kilo n es k).avoid)
          (blame-done now sub s h)
        ∙ job_run-blames es s h
    job_run-blames (job sub (bandwidths least greatest) now ∷ es) s h =
        job_run-blames es (job_step encode per_kilo n (job sub (bandwidths least greatest) now) s)
          (rw h refl)
    job_run-blames (timed_out ∷ es) s h = job_run-blames es (record s { is_done = true }) refl

  -- Where the comparison of bandwidths is a strict weak order, and from no results: in whatever
  -- order the jobs end, the nodes that `measureBandwidth` returns are those whose measurement
  -- succeeded, each with its least bandwidth; no node stands before one whose bandwidth is greater;
  -- and if the context was done before, no node is put on the avoid list.
  pub measure_bandwidth-succeeded :
      (sorter : Sorter (Node Float)) (encode : ServiceMetadata → Option Text)
      (per_kilo : Float → Float) (n : ℕ) (es : List (JobEvent Float)) (s : Measuring Float)
      → IsWeakOrder ops.lt
      → s.results ≡ []
      → ((P : Node Float → Type 0)
          → Any P (measure_bandwidth sorter encode per_kilo n es s).0 ↔ Any P (succeeded es))
        × ((x y : Node Float) (before after : List (Node Float))
            → (measure_bandwidth sorter encode per_kilo n es s).0 ≡ before ++ x ∷ after
            → Any (λ z. z ≡ y) after
            → less_bandwidth ops y x ≡ false)
        × (s.is_done ≡ true → (measure_bandwidth sorter encode per_kilo n es s).1.avoid ≡ s.avoid)
  unfolding measure_bandwidth
  measure_bandwidth-succeeded sorter encode per_kilo n es s weak h =
      let results = job_run-results encode per_kilo n es s ∙ ap (λ l. l ++ succeeded es) h in
      (
        λ P.
            subst
              (λ l.
                Any P (sorter.sort (less_bandwidth ops) (job_run encode per_kilo n es s).results)
                ↔ Any P l)
              results
              (sorter.sort-Any (less_bandwidth ops) (job_run encode per_kilo n es s).results P),
        λ x y before after e a.
            sorter.sort-ordered (less_bandwidth ops) x y before after
              (job_run encode per_kilo n es s).results (weak_bandwidth ops weak) e a,
        job_run-blames encode per_kilo n es s,
      )
