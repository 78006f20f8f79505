-- ===== src/Net/Receiver/Ordered.antt =====
-- `pending_` is a map: its keys ascend, from `next_seq_` on.
use itch_lob_engine.Base.{
  ◌+◌, ◌≤◌, ◌<◌, ◌≡◌, ◌∷◌, ◌==◌, ℕ, refl, subst, inl, inr, true, false, [], arith, ltb, Bool-cases,
  ==→≡, ◌⊎◌, suc, length,
}
use itch_lob_engine.Net.Receiver.{PendingPacket, Pending, has, insert_or_assign, front_is_next}

-- The keys ascend from `lo` on.
abbrev pub Ordered : ℕ → Pending → Type 0
Ordered lo [] = Unit {0}
Ordered lo ((k, p) ∷ ps) = (lo ≤ k) × Ordered (k + 1) ps

pub Ordered-weaken : (lo lo' : ℕ) (ps : Pending) → lo ≤ lo' → Ordered lo' ps → Ordered lo ps
Ordered-weaken lo lo' [] le h = tt
Ordered-weaken lo lo' ((k, p) ∷ ps) le (h, rest) = (omega arith, rest)

pub insert-Ordered :
    (seq lo : ℕ) (p : PendingPacket) (ps : Pending)
    → lo ≤ seq
    → Ordered lo ps
    → Ordered lo (insert_or_assign seq p ps)
insert-Ordered seq lo p [] le h = (le, tt)
insert-Ordered seq lo p ((k, q) ∷ ps) le (h, rest) = elim (Bool-cases (ltb seq k)) [
  | inl lt ↦ rw lt (le, (ground arith, rest))
  | inr ge ↦ elim (Bool-cases (k == seq)) [
    | inl same ↦ rw (ge, same) (le, subst (λ n. Ordered (n + 1) ps) (==→≡ k seq same) rest)
    | inr other ↦ rw (ge, other) (h, insert-Ordered seq (k + 1) p ps (ground arith) rest)
  ]
]

pub has-insert_self :
    (seq : ℕ) (p : PendingPacket) (ps : Pending) → has seq (insert_or_assign seq p ps) ≡ true
has-insert_self seq p [] = ground arith
has-insert_self seq p ((k, q) ∷ ps) = let ih = has-insert_self seq p ps in ground arith

pub has-insert :
    (q seq : ℕ) (p : PendingPacket) (ps : Pending)
    → has q ps ≡ true
    → has q (insert_or_assign seq p ps) ≡ true
has-insert q seq p [] h = ground arith
has-insert q seq p ((k, r) ∷ ps) h = let ih = has-insert q seq p ps in ground arith

has-below : (q lo : ℕ) (ps : Pending) → q < lo → Ordered lo ps → has q ps ≡ false
has-below q lo [] lt h = refl
has-below q lo ((k, p) ∷ ps) lt (h, rest) =
    let ih = has-below q (k + 1) ps (omega arith) rest in ground arith

-- The lowest key there is stands in front.
pub has-front : (q : ℕ) (ps : Pending) → Ordered q ps → has q ps ≡ true → front_is_next ps q ≡ true
has-front q [] h has = ground arith
has-front q ((k, p) ∷ ps) (h, rest) has = elim (Bool-cases (k == q)) [
  | inl same ↦ same
  | inr other ↦ let none_there = has-below q (k + 1) ps (omega arith) rest in ground arith
]

pub Pending-cases :
    (ps : Pending)
    → (ps ≡ []) ⊎ ((k : ℕ) × (p : PendingPacket) × (rest : Pending) × (ps ≡ (k, p) ∷ rest))
Pending-cases [] = inl refl
Pending-cases ((k, p) ∷ rest) = inr (k, p, rest, refl)

pub length-insert :
    (seq : ℕ) (p : PendingPacket) (ps : Pending)
    → has seq ps ≡ false
    → length (insert_or_assign seq p ps) ≡ suc (length ps)
length-insert seq p [] h = refl
length-insert seq p ((k, q) ∷ ps) h = elim (Bool-cases (k == seq)) [
  | inl same ↦ absurd (ground arith)
  | inr other ↦ let ih = length-insert seq p ps (ground arith) in ground arith
]
