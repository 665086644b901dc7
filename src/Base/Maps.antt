-- ===== src/Base/Maps.antt =====
-- Go's maps as association lists. `insert` writes in place, and the order of the entries stands for
-- the order in which a `range` loop visits them.

use mathlib.Core.Path.{◌≡◌, refl}
use mathlib.Core.Logic.{◌≢◌}
use mathlib.Core.List.{List, [], ◌∷◌}
use mathlib.Core.Option.{Option, none, some}
use native.Mathlib.Omega.{arith}
use go_upf.Base.Tests.{Eq, if◌then◌else◌}

abbrev pub Assoc : Type 0 → Type 0 → Type 0
Assoc K V = List (K × V)

module _ {K V : Type 0} ⦃e : Eq K⦄ where
  abbrev pub lookup : K → Assoc K V → Option V
  lookup k [] = none
  lookup k ((j, v) ∷ m) = if e.beq j k then some v else lookup k m

  abbrev pub insert : K → V → Assoc K V → Assoc K V
  insert k v [] = (k, v) ∷ []
  insert k v ((j, w) ∷ m) = if e.beq j k then (k, v) ∷ m else (j, w) ∷ insert k v m

  -- `delete(m, k)`: every entry under the key goes.
  abbrev pub delete : K → Assoc K V → Assoc K V
  delete k [] = []
  delete k ((j, w) ∷ m) = let rest = delete k m in if e.beq j k then rest else (j, w) ∷ rest

  pub lookup-insert :
      (k j : K) (v : V) (m : Assoc K V)
      → lookup j (insert k v m) ≡ (if e.beq k j then some v else lookup j m)
  lookup-insert k j v [] = refl
  lookup-insert k j v ((i, w) ∷ m) =
      ground (arith, e.beq_iff k j, e.beq_iff i k, e.beq_iff i j, lookup-insert k j v m)

  pub lookup-delete :
      (k j : K) (m : Assoc K V) → lookup j (delete k m) ≡ (if e.beq k j then none else lookup j m)
  lookup-delete k j [] = ground arith
  lookup-delete k j ((i, w) ∷ m) =
      ground (arith, e.beq_iff k j, e.beq_iff i k, e.beq_iff i j, lookup-delete k j m)

  pub lookup-insert_self : (k : K) (v : V) (m : Assoc K V) → lookup k (insert k v m) ≡ some v
  lookup-insert_self k v m = ground (arith, lookup-insert k k v m, e.beq_iff k k)

  pub lookup-delete_self : (k : K) (m : Assoc K V) → lookup k (delete k m) ≡ none
  lookup-delete_self k m = ground (arith, lookup-delete k k m, e.beq_iff k k)

  pub lookup-insert_ne :
      (k j : K) (v : V) (m : Assoc K V) → k ≢ j → lookup j (insert k v m) ≡ lookup j m
  lookup-insert_ne k j v m h = ground (arith, lookup-insert k j v m, e.beq_iff k j)

  pub lookup-delete_ne : (k j : K) (m : Assoc K V) → k ≢ j → lookup j (delete k m) ≡ lookup j m
  lookup-delete_ne k j m h = ground (arith, lookup-delete k j m, e.beq_iff k j)
