-- ===== src/Pipeline/Spsc.antt =====
-- `SpscQueue` of include/pipeline/spsc_queue.hpp, each call as one step; Pipeline/Threads takes the
-- calls apart. A capacity is a power of two, so `& kMask` is `% capacity`.
pub mod Window
pub mod Refine
use itch_lob_engine.Base.{
  ◌^◌, ◌*◌, ◌/◌, ◌%◌, ◌-◌, ◌+◌, ◌≤◌, ◌<◌, ◌≡◌, ◌≢◌, ◌↔◌, ◌⊎◌, ◌&&◌, ◌||◌, ◌∙◌, ◌∷◌, ◌++◌, ◌==◌,
  if◌then◌else◌, ℕ, zero, suc, min, max, refl, sym, ap, ap₂, subst, inl, inr, Bool, true, false,
  not, Option, none, some, List, [], map, arith, ltb, leb, length, get_or, set, take, drop,
  replicate, append-nil, append_assoc, Bool-cases, Option-cases, length-append, length-set,
  length-replicate, get_or-set_self, get_or-set_ne, get_or-replicate, ==→≡, ≡→==, ==→≢, ≢→==,
  length-drop, length-take_le, drop-nil, take-nil, drop-add, drop-take_add, take-take_le,
  get_or-take, take-append_le, drop-append_le, get_or-append,
}

-- `buf_`, `head_` and `tail_`; what a slot holds before its first write is `blank`.
pub record Ring {ℓ} (A : Type ℓ) : Type ℓ where
  pub capacity : ℕ
  pub blank : A
  pub buf : List A
  pub head : ℕ
  pub tail : ℕ

abbrev pub new_ring {ℓ} : {A : Type ℓ} → ℕ → A → Ring A
new_ring capacity blank = record {
  capacity = capacity;
  blank = blank;
  buf = replicate capacity blank;
  head = 0;
  tail = 0;
}

module _ {ℓ} {A : Type ℓ} where
  abbrev pub next_tail : Ring A → ℕ
  next_tail q = (q.tail + 1) % q.capacity

  -- The test that refuses a push.
  abbrev pub is_full : Ring A → Bool
  is_full q = next_tail q == q.head

  -- The test that refuses a pop.
  abbrev pub is_empty : Ring A → Bool
  is_empty q = q.head == q.tail

  -- `buf_[tail] = v`
  abbrev pub write : A → Ring A → Ring A
  write v q = record q { buf = set q.buf q.tail v }

  -- `tail_.store(next)`
  abbrev pub publish : Ring A → Ring A
  publish q = record q { tail = next_tail q }

  -- `buf_[head]`
  abbrev pub front : Ring A → A
  front q = get_or q.buf q.head q.blank

  -- `head_.store((head + 1) & kMask)`
  abbrev pub release : Ring A → Ring A
  release q = record q { head = (q.head + 1) % q.capacity }

  unfoldable pub push : A → Ring A → Bool × Ring A
  push v q = if is_full q then (false, q) else (true, publish (write v q))

  unfoldable pub pop : Ring A → Option A × Ring A
  pop q = if is_empty q then (none, q) else (some (front q), release q)

  -- `(tail - head) & kMask`, with size_t subtraction; the capacity divides 2^64.
  unfoldable pub size : Ring A → ℕ
  size q = (q.tail + q.capacity - q.head) % q.capacity
