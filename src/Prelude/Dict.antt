-- ===== src/Prelude/Dict.antt =====
-- JavaScript's `Map`: the entries in the order in which their keys were first set.
use mathlib.Core.Path.{◌≡◌, refl}
use mathlib.Core.Option.{Option, none, some}
use mathlib.Core.List.{List, [], ◌∷◌, map}
use native.Mathlib.Omega.{arith}
use rai_flow.Prelude.Tests.{Eq, ◌==◌, ==-refl, if◌then◌else◌}

abbrev pub Dict {ℓ} : Type ℓ → Type ℓ → Type ℓ
Dict K V = List (K × V)

module _ {ℓ} {K V : Type ℓ} where
  -- [...m.values()]
  abbrev pub values : Dict K V → List V
  values = map (λ e. e.1)

module _ {ℓ} {K V : Type ℓ} ⦃e : Eq K⦄ where
  unfoldable pub get : K → Dict K V → Option V
  get k [] = none
  get k ((j, v) ∷ m) = if j == k then some v else get k m

  -- m.set(k, v)
  unfoldable pub set : K → V → Dict K V → Dict K V
  set k v [] = (k, v) ∷ []
  set k v ((j, w) ∷ m) = if j == k then (j, v) ∷ m else (j, w) ∷ set k v m

  -- m.delete(k)
  unfoldable pub delete : K → Dict K V → Dict K V
  delete k [] = []
  delete k ((j, v) ∷ m) = let rest = delete k m in if j == k then rest else (j, v) ∷ rest

  pub get-set :
      (k j : K) (v : V) (m : Dict K V) → get j (set k v m) ≡ (if k == j then some v else get j m)
  unfolding get set
  get-set k j v [] = refl
  get-set k j v ((i, w) ∷ m) =
      ground (arith, e.equals_iff k j, e.equals_iff i k, e.equals_iff i j, get-set k j v m)

  pub get-delete :
      (k j : K) (m : Dict K V) → get j (delete k m) ≡ (if k == j then none else get j m)
  unfolding get delete
  get-delete k j [] = ground arith
  get-delete k j ((i, w) ∷ m) =
      ground (arith, e.equals_iff k j, e.equals_iff i k, e.equals_iff i j, get-delete k j m)

  pub get-set_self : (k : K) (v : V) (m : Dict K V) → get k (set k v m) ≡ some v
  get-set_self k v m = rw (get-set, ==-refl)
