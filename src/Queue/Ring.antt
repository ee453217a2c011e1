-- ===== src/Queue/Ring.antt =====
-- `deque` and `dlqRing` of internal/queue/broker.go, which share their fields: a slot that holds
-- the Go zero value (a nil `*entry`, an empty `dlqItem`) is `none`.
mod Window
pub mod Refine
use vantage.Prelude.{
  ℕ, zero, suc, [], ◌∷◌, get_elem?, ◌+◌, ◌-◌, ◌%◌, Bool, true, false, List, Option, none, some,
  ◌==◌, if◌then◌else◌, length, replicate, Run, ok, panic, ◌>>=◌, load, store,
}

pub record Ring {ℓ} (A : Type ℓ) : Type ℓ where
  pub buf : List (Option A)
  pub head : ℕ
  pub count : ℕ

module _ {ℓ} {A : Type ℓ} where
  -- `make` has allocated the buffer; whether it can is up to `new_broker`.
  pub new_ring : ℕ → Ring A
  new_ring capacity = record { buf = replicate capacity none; head = 0; count = 0 }

  -- The write of a value behind the last one, and the step of the head past the first one.
  pub put : Ring A → A → Run (Ring A)
  put r a = do
    buf ← store r.buf ((r.head + r.count) % length r.buf) (some a)
    ok (record r { buf = buf; count = r.count + 1 })

  pub advance : Ring A → Run (Ring A)
  advance r = do
    buf ← store r.buf r.head none
    ok (record { buf = buf; head = (r.head + 1) % length r.buf; count = r.count - 1 })

  -- `deque.pushBack`
  pub push_back : Ring A → A → Run (Ring A)
  push_back d e = if d.count == length d.buf then panic else put d e

  -- `deque.popFront` and `dlqRing.pop`: `none` is the second result `false`.
  pub pop_front : Ring A → Run (Option (Option A) × Ring A)
  pop_front r =
      if r.count == 0
      then ok (none, r)
      else (do slot ← load r.buf r.head; r' ← advance r; ok (some slot, r'))

  -- `dlqRing.push`, with whether the oldest was evicted.
  pub push_evict : Ring A → A → Run (Bool × Ring A)
  push_evict r item =
      if r.count == length r.buf
      then (do r' ← advance r; r'' ← put r' item; ok (true, r''))
      else (do r' ← put r item; ok (false, r'))

  -- The value in a slot, if it has one.
  abbrev pub slot : Option (Option A) → List A → List A
  slot (some (some x)) xs = x ∷ xs
  slot (some none) xs = xs
  slot none xs = xs

  -- The values of the `n` slots from position `h` on, going round.
  unfoldable pub gather : List (Option A) → ℕ → ℕ → List A
  gather buf h zero = []
  gather buf h (suc n) = slot (get_elem? buf (h % length buf)) (gather buf (h + 1) n)

  -- What the ring holds, oldest first.
  unfoldable pub contents : Ring A → List A
  contents r = gather r.buf r.head r.count
