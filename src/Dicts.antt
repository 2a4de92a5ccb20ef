-- ===== src/Dicts.antt =====
-- Python's `dict` with text keys: an association list in the order of insertion, each key once.
use mathlib.Core.Path.{subst}
use ha_eisenberg.Common.{
  sym, ◌≡◌, refl, [], ◌∷◌, List, Option, none, some, String, Bool, false, ◌||◌, str_eq, str_eq_iff,
  if◌then◌else◌, All, arith, Bool-cases, inl, inr,
}

module _ {ℓ} {V : Type ℓ} where
  -- d.get(k)
  unfoldable pub lookup : List (String × V) → String → Option V
  lookup [] k = none
  lookup ((key, v) ∷ d) k = let further = lookup d k in if str_eq key k then some v else further

  -- d[k] = v, which leaves a key that is there in its place.
  unfoldable pub put : List (String × V) → String → V → List (String × V)
  put [] k v = (k, v) ∷ []
  put ((key, old) ∷ d) k v =
      let further = put d k v in if str_eq key k then (key, v) ∷ d else (key, old) ∷ further

  -- k in d
  unfoldable pub has_key : List (String × V) → String → Bool
  has_key [] k = false
  has_key ((key, v) ∷ d) k = str_eq key k || has_key d k

  -- Each entry is what its key finds, so no key stands twice with two values.
  abbrev pub IsEntry : List (String × V) → String × V → Type ℓ
  IsEntry d (key, v) = lookup d key ≡ some v

  abbrev pub IsDict : List (String × V) → Type ℓ
  IsDict d = All (IsEntry d) d

  pub lookup-put :
      (d : List (String × V)) (k : String) (v : V) (j : String)
      → lookup (put d k v) j ≡ (if str_eq k j then some v else lookup d j)
  unfolding lookup put
  lookup-put [] k v j = refl
  lookup-put ((key, old) ∷ d) k v j =
      ground (arith, str_eq_iff key k, str_eq_iff key j, str_eq_iff k j, lookup-put d k v j)

  pub has_key-put :
      (d : List (String × V)) (k : String) (v : V) (j : String)
      → has_key (put d k v) j ≡ (has_key d j || str_eq k j)
  unfolding has_key put
  has_key-put [] k v j = ground arith
  has_key-put ((key, old) ∷ d) k v j =
      ground (arith, str_eq_iff key k, str_eq_iff key j, str_eq_iff k j, has_key-put d k v j)

module _ {ℓ κ} {V : Type ℓ} (P : String × V → Type κ) where
  -- A key that is replaced is the key that was put.
  pub All-put :
      (d : List (String × V)) (k : String) (v : V) → All P d → P (k, v) → All P (put d k v)
  unfolding put
  All-put [] k v h p = (p, h)
  All-put ((key, old) ∷ d) k v (h, hs) p = elim (Bool-cases (str_eq key k)) [
    | inl same ↦ rw same (subst (λ (x : String). P (x, v)) (sym ((str_eq_iff key k).0 same)) p, hs)
    | inr other ↦ rw other (h, All-put d k v hs p)
  ]
