-- ===== src/Tests/InsertionSort.antt =====
-- Insertion sort, as an instance of the interface `Sorter`.
use tuna.Nodes.{Sorter, IsWeakOrder}
use tuna.Common.{
  suc, ◌≡◌, refl, ap, ◌∙◌, subst, ◌↔◌, ◌⊎◌, inl, inr, Bool, false, List, [], ◌∷◌, ◌++◌,
  if◌then◌else◌, Bool-cases, if_ind, length, Any,
}

module _ {A : Type 0} (less : A → A → Bool) where
  put_in : A → List A → List A
  put_in x [] = x ∷ []
  put_in x (y ∷ ys) = let rest = put_in x ys in if less y x then y ∷ rest else x ∷ y ∷ ys

  sort_list : List A → List A
  unfolding put_in
  sort_list [] = []
  sort_list (x ∷ xs) = put_in x (sort_list xs)

  Any-put_in : (P : A → Type 0) (x : A) (l : List A) → Any P (put_in x l) ↔ (P x ⊎ Any P l)
  unfolding put_in
  Any-put_in P x [] = (λ h. h, λ h. h)
  Any-put_in P x (y ∷ ys) =
      if_ind (λ r. Any P r ↔ (P x ⊎ (P y ⊎ Any P ys))) (less y x)
        (λ _. (
          λ h. elim h [
            | inl p ↦ inr (inl p)
            | inr q ↦ elim ((Any-put_in P x ys).0 q) [ inl a ↦ inl a | inr b ↦ inr (inr b) ]
          ],
          λ h. elim h [
            | inl a ↦ inr ((Any-put_in P x ys).1 (inl a))
            | inr (inl p) ↦ inl p
            | inr (inr b) ↦ inr ((Any-put_in P x ys).1 (inr b))
          ],
        ))
        (λ _. (λ h. h, λ h. h))

  Any-sort_list : (P : A → Type 0) (l : List A) → Any P (sort_list l) ↔ Any P l
  unfolding sort_list
  Any-sort_list P [] = (λ h. h, λ h. h)
  Any-sort_list P (x ∷ xs) = (
    λ h. elim ((Any-put_in P x (sort_list xs)).0 h) [
      | inl p ↦ inl p
      | inr q ↦ inr ((Any-sort_list P xs).0 q)
    ],
    λ h.
        (Any-put_in P x (sort_list xs)).1
          (elim h [ inl p ↦ inl p | inr q ↦ inr ((Any-sort_list P xs).1 q) ]),
  )

  length-put_in : (x : A) (l : List A) → length (put_in x l) ≡ suc (length l)
  unfolding put_in
  length-put_in x [] = refl
  length-put_in x (y ∷ ys) =
      if_ind (λ (r : List A). length r ≡ suc (suc (length ys))) (less y x)
        (λ _. ap suc (length-put_in x ys)) (λ _. refl)

  length-sort_list : (l : List A) → length (sort_list l) ≡ length l
  unfolding sort_list
  length-sort_list [] = refl
  length-sort_list (x ∷ xs) = length-put_in x (sort_list xs) ∙ ap suc (length-sort_list xs)

  -- no element stands before one that is less
  Ordered : List A → Type 0
  Ordered [] = Unit
  Ordered (x ∷ xs) = ((y : A) → Any (λ z. z ≡ y) xs → less y x ≡ false) × Ordered xs

  not_less :
      (weak : IsWeakOrder less) (x y z : A) → less y x ≡ false → less z y ≡ false → less z x ≡ false
  not_less weak x y z yx zy = elim (Bool-cases (less z x)) [
    | inl e ↦ elim (weak.cotrans z y x e) [ inl a ↦ cc | inr b ↦ cc ]
    | inr e ↦ e
  ]

  put_in-Ordered : (weak : IsWeakOrder less) (x : A) (l : List A) → Ordered l → Ordered (put_in x l)
  unfolding put_in Ordered
  put_in-Ordered weak x [] h = (λ y a. absurd a, tt)
  put_in-Ordered weak x (y ∷ ys) (first, rest) =
      if_ind Ordered (less y x)
        (λ e. (
          λ z a. elim ((Any-put_in (λ w. w ≡ z) x ys).0 a) [
            | inl p ↦ subst (λ w. less w y ≡ false) p (weak.asym y x e)
            | inr q ↦ first z q
          ],
          put_in-Ordered weak x ys rest,
        ))
        (λ e. (
          λ z a. elim a [
            | inl p ↦ subst (λ w. less w x ≡ false) p e
            | inr q ↦ not_less weak x y z e (first z q)
          ],
          (first, rest),
        ))

  sort_list-Ordered : (weak : IsWeakOrder less) (l : List A) → Ordered (sort_list l)
  unfolding sort_list Ordered
  sort_list-Ordered weak [] = tt
  sort_list-Ordered weak (x ∷ xs) = put_in-Ordered weak x (sort_list xs) (sort_list-Ordered weak xs)

  Ordered-at :
      (x y : A) (before after : List A)
      → Ordered (before ++ x ∷ after)
      → Any (λ z. z ≡ y) after
      → less y x ≡ false
  unfolding Ordered
  Ordered-at x y [] after (first, rest) a = first y a
  Ordered-at x y (b ∷ before) after (first, rest) a = Ordered-at x y before after rest a

pub insertion_sort : (A : Type 0) → Sorter A
insertion_sort A = record {
  sort = sort_list;
  sort-Any = λ less l P. Any-sort_list less P l;
  length-sort = length-sort_list;
  sort-ordered = λ less x y before after l weak e a.
      Ordered-at less x y before after (subst (Ordered less) e (sort_list-Ordered less weak l)) a;
}
