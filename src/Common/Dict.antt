-- ===== src/Common/Dict.antt =====
-- Go maps with string keys, as association lists with at most one entry for a key. The list's order
-- stands for the order of one iteration over the map, which Go leaves open.
use Prim.Native.Nat.{◌+◌, ◌≤◌, ◌<◌}
use mathlib.Core.Path.{◌≡◌, refl, sym, ◌∙◌}
use mathlib.Core.Bool.{false}
use mathlib.Core.Logic.{◌⊎◌, inl, inr}
use mathlib.Core.List.{List, [], ◌∷◌}
use mathlib.Core.Option.{Option, none, some, some-injective}
use native.Mathlib.Omega.{arith}
use tuna.Common.Tests.{if◌then◌else◌, Bool-cases}
use tuna.Common.Lists.{length}
use tuna.Common.Strings.{Text, text_eq, text_eq_iff}

abbrev pub Dict {ℓ} : Type ℓ → Type ℓ
Dict V = List (Text × V)

module _ {ℓ} {V : Type ℓ} where
  -- `v, ok := m[k]`
  unfoldable pub lookup : Text → Dict V → Option V
  lookup k [] = none
  lookup k ((j, v) ∷ m) = if text_eq j k then some v else lookup k m

  -- `m[k] = v`
  unfoldable pub insert : Text → V → Dict V → Dict V
  insert k v [] = (k, v) ∷ []
  insert k v ((j, w) ∷ m) =
      let rest = insert k v m in if text_eq j k then (k, v) ∷ m else (j, w) ∷ rest

  -- `delete(m, k)`
  unfoldable pub remove : Text → Dict V → Dict V
  remove k [] = []
  remove k ((j, w) ∷ m) = let rest = remove k m in if text_eq j k then rest else (j, w) ∷ rest

  pub lookup-insert :
      (k j : Text) (v : V) (m : Dict V)
      → lookup j (insert k v m) ≡ (if text_eq k j then some v else lookup j m)
  unfolding lookup insert
  lookup-insert k j v [] = refl
  lookup-insert k j v ((i, w) ∷ m) =
      ground (arith, text_eq_iff k j, text_eq_iff i k, text_eq_iff i j, lookup-insert k j v m)

  -- What is found after an insertion is what was inserted, or was there before under another key.
  pub lookup-insert-some :
      (k j : Text) (v w : V) (m : Dict V)
      → lookup j (insert k v m) ≡ some w
      → ((k ≡ j) × (v ≡ w)) ⊎ ((text_eq k j ≡ false) × (lookup j m ≡ some w))
  lookup-insert-some k j v w m e =
      let found : (if text_eq k j then some v else lookup j m) ≡ some w =
        sym (lookup-insert k j v m) ∙ e in
      elim (Bool-cases (text_eq k j)) [
        | inl t ↦ inl ((text_eq_iff k j).0 t, some-injective _ _ (rw t at found))
        | inr t ↦ inr (t, rw t at found)
      ]

  pub lookup-insert-none :
      (k j : Text) (v : V) (m : Dict V)
      → lookup j (insert k v m) ≡ none
      → (text_eq k j ≡ false) × (lookup j m ≡ none)
  lookup-insert-none k j v m e =
      let missing : (if text_eq k j then some v else lookup j m) ≡ none =
        sym (lookup-insert k j v m) ∙ e in
      elim (Bool-cases (text_eq k j)) [
        | inl t ↦ absurd (let h : some v ≡ none = rw t at missing in cc)
        | inr t ↦ (t, rw t at missing)
      ]

  pub lookup-insert_other :
      (k j : Text) (v : V) (m : Dict V) → text_eq k j ≡ false → lookup j (insert k v m) ≡ lookup j m
  lookup-insert_other k j v m t = lookup-insert k j v m ∙ rw t refl

  pub lookup-remove :
      (k j : Text) (m : Dict V) → lookup j (remove k m) ≡ (if text_eq k j then none else lookup j m)
  unfolding lookup remove
  lookup-remove k j [] = ground arith
  lookup-remove k j ((i, w) ∷ m) =
      ground (arith, text_eq_iff k j, text_eq_iff i k, text_eq_iff i j, lookup-remove k j m)

  -- What is found after a deletion was there before.
  pub lookup-remove-some :
      (k j : Text) (w : V) (m : Dict V) → lookup j (remove k m) ≡ some w → lookup j m ≡ some w
  lookup-remove-some k j w m e =
      let found : (if text_eq k j then none else lookup j m) ≡ some w =
        sym (lookup-remove k j m) ∙ e in
      elim (Bool-cases (text_eq k j)) [
        | inl t ↦ absurd (let h : none ≡ some w = rw t at found in cc)
        | inr t ↦ rw t at found
      ]

  pub length-insert-le : (k : Text) (v : V) (m : Dict V) → length (insert k v m) ≤ length m + 1
  unfolding insert
  length-insert-le k v [] = omega arith
  length-insert-le k v ((j, w) ∷ m) = ground (arith, length-insert-le k v m)

  pub length-remove-le : (k : Text) (m : Dict V) → length (remove k m) ≤ length m
  unfolding remove
  length-remove-le k [] = omega arith
  length-remove-le k ((j, w) ∷ m) = ground (arith, length-remove-le k m)

  -- Deleting a key that is there makes the map smaller.
  pub length-remove-lt :
      (k : Text) (m : Dict V) (v : V) → lookup k m ≡ some v → length (remove k m) < length m
  unfolding lookup remove
  length-remove-lt k [] v h = cc
  length-remove-lt k ((j, w) ∷ m) v h = ground (arith, length-remove-lt k m v, length-remove-le k m)

pub ruleset dict_laws = (lookup-insert, lookup-remove)
