-- ===== src/Prelude/Objects.antt =====
-- JavaScript objects used as maps: association lists in the order in which `for in`,
-- `Object.keys` and `Object.values` go through them.
use Prim.Native.Nat.{ℕ}
use mathlib.Core.Path.{◌≡◌, refl, ap}
use mathlib.Core.List.{List, [], ◌∷◌, ◌++◌}
use mathlib.Core.Option.{Option, none, some}
use mathlib.Core.Logic.{inl, inr}
use native.Mathlib.Omega.{arith}
use gonitor.Prelude.Tests.{if◌then◌else◌, ltb, nat_beq, Eq, ◌==◌, nat_eq, Bool-cases}

module _ {ℓ κ} {K : Type ℓ} {V : Type κ} ⦃e : Eq K⦄ where
  -- `o[k]`, `none` for undefined
  unfoldable pub get : K → List (K × V) → Option V
  get k [] = none
  get k ((j, v) ∷ o) = if j == k then some v else get k o

  -- `o[k] = v` for a key that is no integer: a new key goes to the end
  unfoldable pub put : K → V → List (K × V) → List (K × V)
  put k v [] = (k, v) ∷ []
  put k v ((j, w) ∷ o) = if j == k then (k, v) ∷ o else (j, w) ∷ put k v o

  -- `delete o[k]`
  unfoldable pub remove : K → List (K × V) → List (K × V)
  remove k [] = []
  remove k ((j, v) ∷ o) = if j == k then remove k o else (j, v) ∷ remove k o

  pub get-put :
      (k j : K) (v : V) (o : List (K × V))
      → get j (put k v o) ≡ (if k == j then some v else get j o)
  unfolding get put
  get-put k j v [] = refl
  get-put k j v ((i, w) ∷ o) =
      ground (arith, e.same_iff k j, e.same_iff i k, e.same_iff i j, get-put k j v o)

  pub get-remove :
      (k j : K) (o : List (K × V)) → get j (remove k o) ≡ (if k == j then none else get j o)
  unfolding get remove
  get-remove k j [] = ground arith
  get-remove k j ((i, w) ∷ o) =
      ground (arith, e.same_iff k j, e.same_iff i k, e.same_iff i j, get-remove k j o)

  -- A key that is found splits the object.
  pub get-split :
      (k : K) (v : V) (o : List (K × V))
      → get k o ≡ some v
      → (before after : List (K × V)) × (o ≡ before ++ (k, v) ∷ after)
  unfolding get
  get-split k v [] h = absurd (ground arith)
  get-split k v ((j, w) ∷ o) h = elim (Bool-cases (j == k)) [
    | inl same ↦ ([], o, ground (arith, e.same_iff j k))
    | inr other ↦
        let (b, a, p) = get-split k v o (ground arith) in ((j, w) ∷ b, a, ap ((j, w) ∷◌) p)
  ]

module _ {κ} {V : Type κ} where
  -- `o[k] = v` for an integer key: such keys are listed in ascending order
  unfoldable pub put_int : ℕ → V → List (ℕ × V) → List (ℕ × V)
  put_int k v [] = (k, v) ∷ []
  put_int k v ((j, w) ∷ o) =
      if nat_beq j k
      then (k, v) ∷ o
      else if ltb k j
      then (k, v) ∷ (j, w) ∷ o
      else (j, w) ∷ put_int k v o

  pub get-put_int :
      (k j : ℕ) (v : V) (o : List (ℕ × V))
      → get j (put_int k v o) ≡ (if nat_beq k j then some v else get j o)
  unfolding get put_int
  get-put_int k j v [] = refl
  get-put_int k j v ((i, w) ∷ o) = ground (arith, get-put_int k j v o)
