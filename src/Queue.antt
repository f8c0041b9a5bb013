-- ===== src/Queue.antt =====
-- include/dottorrent/concurrent_queue.hpp: a bounded queue shared by threads. Every operation holds the
-- mutex from its test to its change, so it is one step; a call that waits for a condition variable is
-- `none` until its condition holds. The first item of the list is the front.
pub mod Fifo
pub mod Examples
use dottorrent.Base.{
  ℕ, Bool, true, false, Option, none, some, List, [], ◌∷◌, ◌++◌, length, ltb, ◌==◌, if◌then◌else◌,
}

pub record Queue {ℓ} (A : Type ℓ) : Type ℓ where
  pub capacity : ℕ
  pub items : List A

-- concurrent_queue(size_t)
unfoldable pub make_queue {ℓ} : {A : Type ℓ} → ℕ → Queue A
make_queue n = record { capacity = n; items = [] }

module _ {ℓ} {A : Type ℓ} where
  abbrev pub enqueue : Queue A → A → Queue A
  enqueue q item = record q { items = q.items ++ item ∷ [] }

  -- Both overloads, which wait while the queue is full.
  unfoldable pub push : Queue A → A → Option (Queue A)
  push q item = if ltb (length q.items) q.capacity then some (enqueue q item) else none

  -- The test is for equality, not for "at least".
  unfoldable pub try_push : Queue A → A → Bool × Queue A
  try_push q item = if length q.items == q.capacity then (false, q) else (true, enqueue q item)

  abbrev pub dequeue : ℕ → List A → Option (A × Queue A)
  dequeue n [] = none
  dequeue n (item ∷ rest) = some (item, record { capacity = n; items = rest })

  -- Waits while the queue is empty.
  unfoldable pub pop : Queue A → Option (A × Queue A)
  pop q = dequeue q.capacity q.items

  -- `none` where the call returns false.
  unfoldable pub try_pop : Queue A → Option (A × Queue A)
  try_pop q = dequeue q.capacity q.items

  unfoldable pub size : Queue A → ℕ
  size q = length q.items

  unfoldable pub set_capacity : Queue A → ℕ → Queue A
  set_capacity q n = record q { capacity = n }
