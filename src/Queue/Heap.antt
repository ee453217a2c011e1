-- ===== src/Queue/Heap.antt =====
-- container/heap of the Go standard library, which the retry lane of internal/queue/broker.go calls
-- through `heap.Push` and `heap.Pop`, over the methods of `retryHeap`: the slice is a list, `Less`
-- compares two of its items, and an index out of range panics. Indices stay below twice the
-- length, so `int` does not overflow, and `(j - 1) / 2` at 0 is 0 in Go as it is here.
pub mod Array
pub mod Up
pub mod Down
pub mod Laws
use vantage.Prelude.{
  ℕ, zero, suc, ◌+◌, ◌-◌, ◌*◌, ◌/◌, Bool, List, [], ◌∷◌, ◌++◌, ltb, ◌==◌, if◌then◌else◌, length,
  take, Run, ok, panic, out_of_fuel, ◌>>=◌, load, store,
}

module _ {ℓ} {A : Type ℓ} (less : A → A → Bool) where
  -- `retryHeap.Less`
  pub compare_at : List A → ℕ → ℕ → Run Bool
  compare_at h i j = do x ← load h i; y ← load h j; ok (less x y)

  -- `retryHeap.Swap`
  pub swap : List A → ℕ → ℕ → Run (List A)
  swap h i j = do x ← load h i; y ← load h j; h' ← store h i y; store h' j x

  pub up_loop : ℕ → List A → ℕ → Run (List A)
  up_loop zero h j = out_of_fuel
  up_loop (suc fuel) h j =
      let i = (j - 1) / 2 in
      let rise = swap h i j >>= λ h'. up_loop fuel h' i in
      if i == j then ok h else (do smaller ← compare_at h j i; if smaller then rise else ok h)

  -- The child of `i` that `down` compares with it; the left child `j₁` is below `n`.
  pub smaller_child : List A → ℕ → ℕ → Run ℕ
  smaller_child h j₁ n =
      if ltb (j₁ + 1) n
      then (do smaller ← compare_at h (j₁ + 1) j₁; ok (if smaller then j₁ + 1 else j₁))
      else ok j₁

  pub down_loop : ℕ → List A → ℕ → ℕ → Run (List A)
  down_loop zero h i n = out_of_fuel
  down_loop (suc fuel) h i n =
      let step : Run (List A) = do
        j ← smaller_child h (2 * i + 1) n
        smaller ← compare_at h j i
        let sink = swap h i j >>= λ h'. down_loop fuel h' j n
        if smaller then sink else ok h
      in if ltb (2 * i + 1) n then step else ok h

  -- `heap.Push`
  pub push : List A → A → Run (List A)
  push h x = up_loop (length h + 1) (h ++ x ∷ []) (length (h ++ x ∷ []) - 1)

  -- `heap.Pop`: the last item, which the slice drops, is the old root.
  pub pop : List A → Run (A × List A)
  pop h =
      let n = length h - 1 in
      if length h == 0
      then panic
      else (do h' ← swap h 0 n; h'' ← down_loop (n + 1) h' 0 n; x ← load h'' n; ok (x, take n h''))
