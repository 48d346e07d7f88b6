-- ===== src/Base/Dictionary.antt =====
-- `HashMap` of the standard library as a list of entries, in the order in which their keys came. The
-- order of the real map is not specified, and no statement depends on it.
use mathlib.Core.HLevel.{Discrete}
use mathlib.Core.Path.{◌≡◌, refl, sym}
use mathlib.Core.Logic.{◌≢◌}
use mathlib.Core.Option.{Option, none, some}
use mathlib.Core.List.{List, [], ◌∷◌, ◌++◌, map}
use native.Mathlib.Omega.{arith}
use ether_dream.Base.Lists.{All, All-append}

-- No element is there twice.
abbrev pub AreDistinct {ℓ} : {A : Type ℓ} → List A → Type ℓ
AreDistinct [] = Unit
AreDistinct (x ∷ xs) = All (λ y. y ≢ x) xs × AreDistinct xs

pub AreDistinct-snoc {ℓ} :
    {A : Type ℓ} (xs : List A) (y : A)
    → All (λ x. x ≢ y) xs
    → AreDistinct xs
    → AreDistinct (xs ++ y ∷ [])
AreDistinct-snoc [] y h d = (tt, tt)
AreDistinct-snoc (x ∷ xs) y (n, h) (a, d) =
    (All-append (λ z. z ≢ x) xs (y ∷ []) a ((λ e. n (sym e)), tt), AreDistinct-snoc xs y h d)

module _ {K V : Type 0} (dec : Discrete K) where
  unfoldable pub lookup : K → List (K × V) → Option V
  lookup k [] = none
  lookup k ((j, v) ∷ m) = elim (dec j k) [ yes _ ↦ some v | no _ ↦ lookup k m ]

  -- An entry with the key is replaced where it stands.
  unfoldable pub insert : K → V → List (K × V) → List (K × V)
  insert k v [] = (k, v) ∷ []
  insert k v ((j, w) ∷ m) = elim (dec j k) [ yes _ ↦ (k, v) ∷ m | no _ ↦ (j, w) ∷ insert k v m ]

  pub lookup-insert_self : (k : K) (v : V) (m : List (K × V)) → lookup k (insert k v m) ≡ some v
  unfolding lookup insert
  lookup-insert_self k v [] = ground arith
  lookup-insert_self k v ((j, w) ∷ m) = ground (arith, lookup-insert_self k v m)

  pub lookup-insert_other :
      (k j : K) (v : V) (m : List (K × V)) → k ≢ j → lookup j (insert k v m) ≡ lookup j m
  unfolding lookup insert
  lookup-insert_other k j v [] h = ground arith
  lookup-insert_other k j v ((i, w) ∷ m) h = ground (arith, lookup-insert_other k j v m h)

  abbrev pub keys : List (K × V) → List K
  keys m = map (λ e. e.0) m

  -- A key that is new comes last.
  pub keys-insert_new :
      (k : K) (v : V) (m : List (K × V))
      → lookup k m ≡ none
      → keys (insert k v m) ≡ keys m ++ k ∷ []
  unfolding lookup insert
  keys-insert_new k v [] h = refl
  keys-insert_new k v ((j, u) ∷ m) h = ground (arith, keys-insert_new k v m)

  -- With a key that is known the keys stay.
  pub keys-insert_known :
      (k : K) (v w : V) (m : List (K × V)) → lookup k m ≡ some w → keys (insert k v m) ≡ keys m
  unfolding lookup insert
  keys-insert_known k v w [] h = cc
  keys-insert_known k v w ((j, u) ∷ m) h = ground (arith, keys-insert_known k v w m)

  pub lookup-none : (k : K) (m : List (K × V)) → lookup k m ≡ none → All (λ j. j ≢ k) (keys m)
  unfolding lookup
  lookup-none k [] h = tt
  lookup-none k ((j, u) ∷ m) h = tested (dec j k) (lookup-none k m) h
    where
      tested :
          (d : Dec (j ≡ k))
          → (lookup k m ≡ none → All (λ i. i ≢ k) (keys m))
          → elim d as (λ _. Option V) [ yes _ ↦ some u | no _ ↦ lookup k m ] ≡ none
          → (j ≢ k) × All (λ i. i ≢ k) (keys m)
      tested (yes e) ih g = cc
      tested (no n) ih g = (n, ih g)
