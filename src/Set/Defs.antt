-- ===== src/Set/Defs.antt =====
-- The operations of `HashSet` that the source calls; `contains` is also that of `Vec`.
use gresse.Prelude.{Key, ite, Bool, true, false, List, [], ◌∷◌, ◌++◌, if◌then◌else◌}

module _ {ℓ} {K : Type ℓ} ⦃key : Key K⦄ where
  unfoldable pub contains : K → List K → Bool
  contains k [] = false
  contains k (j ∷ s) = ite (key.dec j k) true (contains k s)

  unfoldable pub insert : K → List K → List K
  insert k s = if contains k s then s else s ++ (k ∷ [])

  unfoldable pub remove : K → List K → List K
  remove k [] = []
  remove k (j ∷ s) = let rest = remove k s in ite (key.dec j k) rest (j ∷ rest)

  -- `collect::<HashSet<_>>()`.
  unfoldable pub from_list : List K → List K
  from_list [] = []
  from_list (x ∷ xs) = insert x (from_list xs)
