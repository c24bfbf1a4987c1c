-- ===== src/Nodes/Top.antt =====
-- `measureDelay` (tuna.go): the nodes that it returns are the fastest that answered.
use tuna.Storage.{FloatOps}
use tuna.Nodes.{Node, less_delay, Sorter, IsWeakOrder, weak_delay, measured, measure_delay}
use tuna.Common.{
  ℕ, ◌≤◌, ◌≡◌, sym, ap, ◌∙◌, subst, ◌⊎◌, inl, inr, Bool, false, Option, some, List, [], ◌∷◌, ◌++◌,
  append_assoc, option_ind, length, take, drop, length-take-le, take-append-drop, All, Any,
}

module _ {A : Type 0} (P : A → Type 0) where
  split_Any : (xs ys : List A) → Any P (xs ++ ys) → Any P xs ⊎ Any P ys
  split_Any [] ys h = inr h
  split_Any (x ∷ xs) ys (inl p) = inl (inl p)
  split_Any (x ∷ xs) ys (inr h) = elim (split_Any xs ys h) [ inl a ↦ inl (inr a) | inr b ↦ inr b ]

  Any-right : (xs ys : List A) → Any P ys → Any P (xs ++ ys)
  Any-right [] ys h = h
  Any-right (x ∷ xs) ys h = inr (Any-right xs ys h)

-- what stands behind a whole part of a sorted list is not less than any of that part
behind :
    {A : Type 0} (sorter : Sorter A) (less : A → A → Bool) (y : A) (l before part after : List A)
    → IsWeakOrder less
    → sorter.sort less l ≡ before ++ (part ++ after)
    → Any (λ z. z ≡ y) after
    → All (λ x. less y x ≡ false) part
behind sorter less y l before [] after weak e h = tt
behind sorter less y l before (x ∷ part) after weak e h = (
  sorter.sort-ordered less x y before (part ++ after) l weak e
      (Any-right (λ z. z ≡ y) part after h),
  behind sorter less y l (before ++ x ∷ []) part after weak
      (e ∙ sym (append_assoc before (x ∷ []) (part ++ after))) h,
)

-- a node that answers is measured
measured-Any :
    {F : Type 0} (dial : Node F → Option F) (n : Node F) (d : F) (nodes : List (Node F))
    → dial n ≡ some d
    → Any (λ m. m ≡ n) nodes
    → Any (λ m. m ≡ record n { delay = d }) (measured dial nodes)
unfolding measured
measured-Any dial n d [] e h = absurd h
measured-Any {F} dial n d (m ∷ nodes) e (inl h) =
    rw (Any, ap dial h ∙ e) (inl (ap (λ (k : Node F). record k { delay = d }) h))
measured-Any {F} dial n d (m ∷ nodes) e (inr h) =
    option_ind (λ (r : List (Node F)). Any (λ z. z ≡ record n { delay = d }) r) (dial m)
      (λ _. measured-Any dial n d nodes e h) (λ k _. inr (measured-Any dial n d nodes e h))

-- Where the comparison of delays is a strict weak order and the workers append all that they
-- measure, in whatever order: `measureDelay` returns at most `numResults` nodes, and a given node
-- that answers in the time `d` is returned with that delay unless no returned node is slower than
-- it.
pub measure_delay-fastest :
    (ops : FloatOps) (sorter : Sorter (Node ops.Float)) (dial : Node ops.Float → Option ops.Float)
    (arrival : List (Node ops.Float) → List (Node ops.Float)) (num_results : ℕ)
    (nodes : List (Node ops.Float)) (n : Node ops.Float) (d : ops.Float)
    → IsWeakOrder ops.lt
    → ((P : Node ops.Float → Type 0) (l : List (Node ops.Float)) → Any P l → Any P (arrival l))
    → dial n ≡ some d
    → Any (λ m. m ≡ n) nodes
    → (length (measure_delay ops sorter dial arrival num_results nodes) ≤ num_results)
      × (Any
            (λ m. m ≡ record n { delay = d })
            (measure_delay ops sorter dial arrival num_results nodes)
          ⊎ All
              (λ m. less_delay ops (record n { delay = d }) m ≡ false)
              (measure_delay ops sorter dial arrival num_results nodes))
unfolding measure_delay
measure_delay-fastest ops sorter dial arrival num_results nodes n d weak arrives e h =
    let sorted = sorter.sort (less_delay ops) (arrival (measured dial nodes)) in
    let there =
      (sorter.sort-Any (less_delay ops) (arrival (measured dial nodes))
          (λ m. m ≡ record n { delay = d })).1
        (arrives (λ m. m ≡ record n { delay = d }) (measured dial nodes)
          (measured-Any dial n d nodes e h)) in
    (
      length-take-le num_results sorted,
      elim (split_Any (λ m. m ≡ record n { delay = d }) (take num_results sorted)
          (drop num_results sorted)
          (subst (λ l. Any (λ m. m ≡ record n { delay = d }) l)
            (sym (take-append-drop num_results sorted)) there)) [
              | inl a ↦ inl a
              | inr b ↦ inr (
                  behind sorter (less_delay ops) (record n { delay = d })
                    (arrival (measured dial nodes)) [] (take num_results sorted)
                    (drop num_results sorted) (weak_delay ops weak)
                    (sym (take-append-drop num_results sorted)) b)
            ],
    )
