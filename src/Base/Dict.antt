-- ===== src/Base/Dict.antt =====
-- A JavaScript `Map` with string keys, as its entries in the order of insertion.
use Prim.Native.String.{String}
use mathlib.Core.Path.{◌≡◌, refl}
use mathlib.Core.Option.{Option, none, some}
use mathlib.Core.List.{List, [], ◌∷◌}
use native.Mathlib.Omega.{arith}
use text.Mathlib.Text.{◌==◌}
use text.Mathlib.TextEquality.{eq_iff}
use pocket_dev.Base.Comparisons.{if◌then◌else◌, Bool-cases}
use mathlib.Core.Logic.{inl, inr}

abbrev pub Dict {ℓ} : Type ℓ → Type ℓ
Dict V = List (String × V)

module _ {ℓ} {V : Type ℓ} where
  -- `map.get(k)`
  unfoldable pub get : String → Dict V → Option V
  get k [] = none
  get k ((j, v) ∷ m) = if j == k then some v else get k m

  -- `map.set(k, v)`: a key that is there keeps its place.
  unfoldable pub put : String → V → Dict V → Dict V
  put k v [] = (k, v) ∷ []
  put k v ((j, w) ∷ m) = if j == k then (k, v) ∷ m else (j, w) ∷ put k v m

  -- `object[k] = v` on a plain object, for a value that is an object: the name `__proto__` sets the
  -- object's prototype, and makes no entry.
  unfoldable pub assign : String → V → Dict V → Dict V
  unfolding put
  assign k v m = if k == "__proto__" then m else put k v m

  -- `map.delete(k)`
  unfoldable pub erase : String → Dict V → Dict V
  erase k [] = []
  erase k ((j, w) ∷ m) = let rest = erase k m in if j == k then rest else (j, w) ∷ rest

  -- No key stands twice, as in every `Map`.
  abbrev pub IsDistinct : Dict V → Type ℓ
  IsDistinct [] = Unit
  IsDistinct ((k, v) ∷ m) = (get k m ≡ none) × IsDistinct m

  pub get-put :
      (k j : String) (v : V) (m : Dict V) → get j (put k v m) ≡ (if k == j then some v else get j m)
  unfolding get put
  get-put k j v [] = refl
  get-put k j v ((i, w) ∷ m) = ground (arith, eq_iff k j, eq_iff i k, eq_iff i j, get-put k j v m)

  pub get-assign :
      (k j : String) (v : V) (m : Dict V)
      → get j (assign k v m)
        ≡ (if k == "__proto__" then get j m else if k == j then some v else get j m)
  unfolding assign
  get-assign k j v m = elim (Bool-cases (k == "__proto__")) [
    | inl e ↦ rw e refl
    | inr e ↦ rw e (get-put k j v m)
  ]

  pub get-erase :
      (k j : String) (m : Dict V) → get j (erase k m) ≡ (if k == j then none else get j m)
  unfolding get erase
  get-erase k j [] = ground arith
  get-erase k j ((i, w) ∷ m) = ground (arith, eq_iff k j, eq_iff i k, eq_iff i j, get-erase k j m)

  pub put-IsDistinct : (k : String) (v : V) (m : Dict V) → IsDistinct m → IsDistinct (put k v m)
  unfolding get put
  put-IsDistinct k v [] h = (refl, tt)
  put-IsDistinct k v ((j, w) ∷ m) h = elim (Bool-cases (j == k)) [
    | inl e ↦ rw e (rw ((eq_iff j k).0 e) at h)
    | inr e ↦
        rw e
          (ground (arith, get-put k j v m, eq_iff k j, eq_iff j k, h.0), put-IsDistinct k v m h.1)
  ]

  pub assign-IsDistinct :
      (k : String) (v : V) (m : Dict V) → IsDistinct m → IsDistinct (assign k v m)
  unfolding assign
  assign-IsDistinct k v m h = elim (Bool-cases (k == "__proto__")) [
    | inl e ↦ rw e h
    | inr e ↦ rw e (put-IsDistinct k v m h)
  ]

  pub erase-IsDistinct : (k : String) (m : Dict V) → IsDistinct m → IsDistinct (erase k m)
  unfolding erase
  erase-IsDistinct k [] h = tt
  erase-IsDistinct k ((j, w) ∷ m) h = elim (Bool-cases (j == k)) [
    | inl e ↦ rw e (erase-IsDistinct k m h.1)
    | inr e ↦ rw e (ground (arith, get-erase k j m, h.0), erase-IsDistinct k m h.1)
  ]

  pub erase-absent : (k : String) (m : Dict V) → get k m ≡ none → erase k m ≡ m
  unfolding get erase
  erase-absent k [] h = refl
  erase-absent k ((j, w) ∷ m) h = ground (arith, erase-absent k m)
