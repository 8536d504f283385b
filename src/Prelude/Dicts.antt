-- ===== src/Prelude/Dicts.antt =====
-- Python's dictionaries with text keys, as lists of pairs in the order of insertion.
use mathlib.Core.Path.{◌≡◌, refl}
use mathlib.Core.Bool.{◌||◌}
use mathlib.Core.Option.{Option, none, some}
use mathlib.Core.List.{List, [], ◌∷◌, map}
use native.Mathlib.Omega.{arith}
use Prim.Native.String.{String}
use gardenlinux.Prelude.Tests.{◌==◌, string_eq, if◌then◌else◌}
use gardenlinux.Prelude.Lists.{is_none, contains}
use gardenlinux.Prelude.Sets.{NoDup}

abbrev pub Dict {ℓ} : Type ℓ → Type ℓ
Dict V = List (String × V)

module _ {ℓ} {V : Type ℓ} where
  -- `d.get(k)`
  unfoldable pub lookup : String → Dict V → Option V
  lookup k [] = none
  lookup k ((j, v) ∷ d) = let rest = lookup k d in if j == k then some v else rest

  -- `d[k] = v`: a key that is there keeps its place.
  unfoldable pub insert : String → V → Dict V → Dict V
  insert k v [] = (k, v) ∷ []
  insert k v ((j, x) ∷ d) = let rest = insert k v d in if j == k then (j, v) ∷ d else (j, x) ∷ rest

  -- `del d[k]`, of a key that is there
  unfoldable pub erase : String → Dict V → Dict V
  erase k [] = []
  erase k ((j, x) ∷ d) = let rest = erase k d in if j == k then d else (j, x) ∷ rest

  -- `if k not in d: d[k] = v`
  unfoldable pub set_default : String → V → Dict V → Dict V
  unfolding insert
  set_default k v d = if is_none (lookup k d) then insert k v d else d

  pub lookup-insert :
      (k j : String) (v : V) (d : Dict V)
      → lookup j (insert k v d) ≡ (if k == j then some v else lookup j d)
  unfolding lookup insert
  lookup-insert k j v [] = refl
  lookup-insert k j v ((i, x) ∷ d) = ground (
    arith,
    lookup-insert k j v d,
    string_eq.equals_iff i k,
    string_eq.equals_iff i j,
    string_eq.equals_iff k j,
  )

  pub erase-insert :
      (k : String) (v : V) (d : Dict V) → lookup k d ≡ none → erase k (insert k v d) ≡ d
  unfolding lookup insert erase
  erase-insert k v [] h = ground (arith, string_eq.equals_iff k k)
  erase-insert k v ((i, x) ∷ d) h = ground (arith, erase-insert k v d, string_eq.equals_iff i k)

abbrev pub keys {ℓ} : {V : Type ℓ} → Dict V → List String
keys d = map (λ entry. entry.0) d

module _ {ℓ} {V : Type ℓ} where
  pub keys-insert :
      (k j : String) (v : V) (d : Dict V)
      → contains (keys (insert k v d)) j ≡ (k == j || contains (keys d) j)
  unfolding insert contains
  keys-insert k j v [] = refl
  keys-insert k j v ((i, x) ∷ d) = ground (arith, keys-insert k j v d, string_eq.equals_iff i k)

  pub insert-NoDup :
      (k : String) (v : V) (d : Dict V) → NoDup (keys d) → NoDup (keys (insert k v d))
  unfolding insert contains
  insert-NoDup k v [] h = (refl, tt)
  insert-NoDup k v ((i, x) ∷ d) (fresh, h) = ground (
    arith,
    insert-NoDup k v d h,
    keys-insert k i v d,
    string_eq.equals_iff i k,
    string_eq.equals_iff k i,
  )
