-- ===== src/Queue/Heap/Laws.antt =====
-- The root of a heap is least.
use vantage.Prelude.{ℕ, zero, suc, ◌<◌, ◌≡◌, refl, [], ◌∷◌, Bool, List, arith, length}
use vantage.Queue.Heap.Array.{get_or}
use vantage.Queue.Heap.Up.{IsOrder, parent, LeAt, IsHeap}

get_or-default {ℓ} :
    {A : Type ℓ} (d d' : A) (h : List A) (i : ℕ) → i < length h → get_or h i d ≡ get_or h i d'
get_or-default d d' [] i p = absurd (omega arith)
get_or-default d d' (x ∷ h) zero p = refl
get_or-default d d' (x ∷ h) (suc i) p = get_or-default d d' h i (omega arith)

-- The default of a read plays no part.
pub IsHeap-default {ℓ} :
    {A : Type ℓ} (less : A → A → Bool) (d d' : A) (h : List A) → IsHeap less d h → IsHeap less d' h
IsHeap-default less d d' h v c p q =
    ground
      (arith, v c p q, get_or-default d d' h c q, get_or-default d d' h (parent c) (omega arith))

module _ {ℓ} {A : Type ℓ} (less : A → A → Bool) (d : A) (o : IsOrder less) where
  root_le_below :
      (k : ℕ) (h : List A) (i : ℕ) → i < k → i < length h → IsHeap less d h → LeAt less d h 0 i
  root_le_below zero h i p q v = absurd (omega arith)
  root_le_below (suc k) h zero p q v = ground (arith, o.asym (get_or h 0 d) (get_or h 0 d))
  root_le_below (suc k) h (suc i) p q v =
      o.le_trans (get_or h 0 d) (get_or h (parent (suc i)) d) (get_or h (suc i) d)
        (root_le_below k h (parent (suc i)) (omega arith) (omega arith) v)
        (v (suc i) (omega arith) q)

  pub root_le : (h : List A) (i : ℕ) → i < length h → IsHeap less d h → LeAt less d h 0 i
  root_le h i q v = root_le_below (suc i) h i (omega arith) q v
