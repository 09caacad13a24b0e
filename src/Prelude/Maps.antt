-- ===== src/Prelude/Maps.antt =====
-- Go's maps with text keys, as association lists: the first entry of a key is its value.
use Prim.Native.String.{String}
use mathlib.Core.Path.{◌≡◌, refl}
use mathlib.Core.Option.{Option, none, some}
use mathlib.Core.List.{List, [], ◌∷◌}
use native.Mathlib.Omega.{arith}
use text.Mathlib.TextEquality.{eq_iff}
use mathlib.Core.Bool.{false}
use mathlib.Core.Logic.{inl, inr}
use amalthea.Prelude.Tests.{◌==◌, String_eq, if◌then◌else◌, Bool-cases}

abbrev pub StringMap {ℓ} : Type ℓ → Type ℓ
StringMap V = List (String × V)

-- The first of two optional values that is there.
abbrev pub or_else {ℓ} : {A : Type ℓ} → Option A → Option A → Option A
or_else none o = o
or_else (some a) o = some a

module _ {ℓ} {V : Type ℓ} where
  -- `m[key]`
  unfoldable pub lookup : String → StringMap V → Option V
  lookup key [] = none
  lookup key ((k, value) ∷ rest) = if k == key then some value else lookup key rest

  -- `delete(m, key)`
  unfoldable pub remove : String → StringMap V → StringMap V
  remove key [] = []
  remove key ((k, value) ∷ rest) =
      let kept = remove key rest in if k == key then kept else (k, value) ∷ kept

  -- `m[key] = value`
  unfoldable pub insert : String → V → StringMap V → StringMap V
  unfolding remove
  insert key value m = (key, value) ∷ remove key m

  lookup-remove :
      (gone key : String) (m : StringMap V)
      → (gone == key) ≡ false
      → lookup key (remove gone m) ≡ lookup key m
  unfolding lookup remove
  lookup-remove gone key [] h = refl
  lookup-remove gone key ((k, value) ∷ rest) h =
      ground (arith, eq_iff gone key, eq_iff k gone, eq_iff k key, lookup-remove gone key rest h)

  pub lookup-insert :
      (k j : String) (v : V) (m : StringMap V)
      → lookup j (insert k v m) ≡ (if k == j then some v else lookup j m)
  unfolding insert lookup
  lookup-insert k j v m = elim (Bool-cases (k == j)) [
    | inl same ↦ rw same
    | inr other ↦ rw other (lookup-remove k j m other)
  ]

  pub lookup-insert_same : (k : String) (v : V) (m : StringMap V) → lookup k (insert k v m) ≡ some v
  lookup-insert_same k v m = ground (arith, eq_iff k k, lookup-insert k k v m)

  -- `for k, v := range src { dst[k] = v }`
  unfoldable pub copy : StringMap V → StringMap V → StringMap V
  copy [] dst = dst
  copy ((k, v) ∷ src) dst = insert k v (copy src dst)

  -- What is copied hides what was there.
  pub lookup-copy :
      (k : String) (src dst : StringMap V)
      → lookup k (copy src dst) ≡ or_else (lookup k src) (lookup k dst)
  unfolding lookup copy
  lookup-copy k [] dst = refl
  lookup-copy k ((j, v) ∷ src) dst =
      ground (arith, lookup-insert j k v (copy src dst), lookup-copy k src dst)
