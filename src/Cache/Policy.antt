-- ===== src/Cache/Policy.antt =====
-- control_plane/kv_cache_manager/eviction_policy.py. The class hierarchy is a data type with a
-- constructor for each class and its state; a method returns the new state. `now` is the reading of
-- the clock that the method takes.
pub mod Choice
use dynamo_serve.Base.{
  ℕ, ◌+◌, ltb, Bool, not, List, [], ◌∷◌, Option, none, some, Dict, lookup, insert, delete, get_or,
  select, best, nat_eq,
}
use dynamo_serve.Float.{Float}
use dynamo_serve.Models.Block.{Block}

pub data Policy (F : Type 0) : Type 0 where
  -- block id -> time of the last access
  lru : Dict ℕ F → Policy F
  -- block id -> number of accesses
  lfu : Dict ℕ ℕ → Policy F
  -- block id -> times of the accesses to come
  belady : Dict ℕ (List F) → Policy F

module _ {F : Type 0} ⦃fl : Float F⦄ where
  open fl use {of_nat, lt, infinity}

  -- `q.pop(0)` on the queue of a block, where there is one with an element.
  unfoldable pub pop_future : ℕ → Dict ℕ (List F) → Dict ℕ (List F)
  pop_future i future = elim (lookup i future) [
    | none ↦ future
    | some q ↦ elim q [ [] ↦ future | t ∷ q' ↦ insert i q' future ]
  ]

  unfoldable pub on_access : F → ℕ → Policy F → Policy F
  unfolding pop_future
  on_access now i (lru times) = lru (insert i now times)
  on_access now i (lfu freq) = lfu (insert i (get_or (lookup i freq) 0 + 1) freq)
  on_access now i (belady future) = belady (pop_future i future)

  -- What `on_access` writes to the block itself.
  unfoldable pub stamp : Policy F → F → Block F → Block F
  stamp (lru times) now b = record b { last_accessed = now }
  stamp (lfu freq) now b = b
  stamp (belady future) now b = b

  unfoldable pub on_allocate : F → ℕ → Policy F → Policy F
  on_allocate now i (lru times) = lru (insert i now times)
  on_allocate now i (lfu freq) = lfu (insert i 0 freq)
  on_allocate now i (belady future) = belady future

  unfoldable pub on_free : ℕ → Policy F → Policy F
  on_free i (lru times) = lru (delete i times)
  on_free i (lfu freq) = lfu (delete i freq)
  on_free i (belady future) = belady (delete i future)

  unfoldable pub evictable : List (Block F) → List (Block F)
  evictable = select (λ b. not b.pinned)

  unfoldable pub access_time : Dict ℕ F → Block F → F
  access_time times b = get_or (lookup b.block_id times) (of_nat 0)

  unfoldable pub frequency : Dict ℕ ℕ → Block F → ℕ
  frequency freq b = get_or (lookup b.block_id freq) 0

  unfoldable pub next_use : Dict ℕ (List F) → Block F → F
  next_use future b = elim (get_or (lookup b.block_id future) []) [ [] ↦ infinity | t ∷ q ↦ t ]

  -- `better p x y`: the loop of `min` (`max` for Belady's policy) prefers `x` to `y`.
  unfoldable pub better : Policy F → Block F → Block F → Bool
  unfolding access_time frequency next_use
  better (lru times) x y = lt (access_time times x) (access_time times y)
  better (lfu freq) x y = ltb (frequency freq x) (frequency freq y)
  better (belady future) x y = lt (next_use future y) (next_use future x)

  unfoldable pub pick_victim : Policy F → List (Block F) → Option (Block F)
  unfolding evictable
  pick_victim p candidates = best (better p) (evictable candidates)
