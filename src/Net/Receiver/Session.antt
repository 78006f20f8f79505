-- ===== src/Net/Receiver/Session.antt =====
-- A session that sends each message in a packet of its own: its packets, and what becomes of them in
-- `pending_`.
use itch_lob_engine.Base.{
  ◌-◌, ◌+◌, ◌≤◌, ◌<◌, ◌≡◌, ◌⊎◌, ◌∙◌, ◌∷◌, ◌++◌, ◌==◌, ℕ, zero, suc, refl, sym, ap, inl, inr, true,
  List, [], arith, ltb, length, take, drop, append-nil, Bool-cases, ==→≡,
}
use itch_lob_engine.Itch.Wire.{Bytes}
use itch_lob_engine.Itch.Messages.{Call}
use itch_lob_engine.Itch.Encode.{frame, stream}
use itch_lob_engine.Itch.Encode.RoundTrip.{Message, MessageFits, encode, call_of}
use itch_lob_engine.Itch.Stream.{frame_size, parse_stream}
use itch_lob_engine.Itch.Stream.RoundTrip.{AllFit, handle_all, parse_stream-stream}
use itch_lob_engine.Net.Receiver.{PendingPacket, Pending, has, insert_or_assign}
use itch_lob_engine.Net.Receiver.Ordered.{has-insert}

-- The packet of sequence number `q`.
abbrev pub Carries : List Message → ℕ → PendingPacket → Type 0
Carries ms q p =
    (1 ≤ q)
    × (m : Message) × (rest : List Message) × (drop (q - 1) ms ≡ m ∷ rest)
    × (p.payload ≡ frame (encode m))
    × (p.count ≡ 1)

abbrev pub AllCarry : List Message → Pending → Type 0
AllCarry ms [] = Unit {0}
AllCarry ms ((k, p) ∷ ps) = Carries ms k p × AllCarry ms ps

-- The packets that have arrived are delivered or wait.
abbrev pub AllKept : List ℕ → ℕ → Pending → Type 0
AllKept [] next ps = Unit {0}
AllKept (q ∷ qs) next ps = ((q < next) ⊎ (has q ps ≡ true)) × AllKept qs next ps

pub insert-AllCarry :
    (ms : List Message) (seq : ℕ) (p : PendingPacket) (ps : Pending)
    → Carries ms seq p
    → AllCarry ms ps
    → AllCarry ms (insert_or_assign seq p ps)
insert-AllCarry ms seq p [] c h = (c, tt)
insert-AllCarry ms seq p ((k, q) ∷ ps) c (d, h) = elim (Bool-cases (ltb seq k)) [
  | inl lt ↦ rw lt (c, (d, h))
  | inr ge ↦ elim (Bool-cases (k == seq)) [
    | inl same ↦ rw (ge, same) (c, h)
    | inr other ↦ rw (ge, other) (d, insert-AllCarry ms seq p ps c h)
  ]
]

pub insert-AllKept :
    (qs : List ℕ) (next seq : ℕ) (p : PendingPacket) (ps : Pending)
    → AllKept qs next ps
    → AllKept qs next (insert_or_assign seq p ps)
insert-AllKept [] next seq p ps h = tt
insert-AllKept (q ∷ qs) next seq p ps (inl lt, h) = (inl lt, insert-AllKept qs next seq p ps h)
insert-AllKept (q ∷ qs) next seq p ps (inr there, h) =
    (inr (has-insert q seq p ps there), insert-AllKept qs next seq p ps h)

-- The front is delivered.
pub drained-AllKept :
    (qs : List ℕ) (k : ℕ) (p : PendingPacket) (ps : Pending)
    → AllKept qs k ((k, p) ∷ ps)
    → AllKept qs (k + 1) ps
drained-AllKept [] k p ps h = tt
drained-AllKept (q ∷ qs) k p ps (inl lt, h) = (inl (omega arith), drained-AllKept qs k p ps h)
drained-AllKept (q ∷ qs) k p ps (inr there, h) = elim (Bool-cases (k == q)) [
  | inl same ↦ (inl (omega (arith, ==→≡ k q same)), drained-AllKept qs k p ps h)
  | inr other ↦ (inr (ground arith), drained-AllKept qs k p ps h)
]

pub AllFit-drop : (k : ℕ) (ms : List Message) → AllFit ms → AllFit (drop k ms)
AllFit-drop zero ms h = h
AllFit-drop (suc k) [] h = h
AllFit-drop (suc k) (m ∷ ms) (f, h) = AllFit-drop k ms h

-- One message more.
pub take-drop-suc :
    (k : ℕ) (ms : List Message) (m : Message) (rest : List Message)
    → drop k ms ≡ m ∷ rest
    → (take (suc k) ms ≡ take k ms ++ m ∷ []) × (k < length ms)
take-drop-suc zero [] m rest e = absurd (cc e)
take-drop-suc zero (x ∷ ms) m rest e =
    (ap (λ (y : Message). y ∷ []) (let h : x ≡ m = cc e in h), omega arith)
take-drop-suc (suc k) [] m rest e = absurd (cc e)
take-drop-suc (suc k) (x ∷ ms) m rest e =
    let (ih, lt) = take-drop-suc k ms m rest e in
    (ap (λ (ys : List Message). x ∷ ys) ih, omega arith)

module _ {S : Type 0} (handle : Call → S → S) where
  pub parse_one :
      (m : Message) (s : S)
      → MessageFits m
      → parse_stream handle (frame (encode m)) s ≡ (1, handle (call_of m) s)
  unfolding frame_size stream
  parse_one m s fit =
      ap (λ (bs : Bytes). parse_stream handle bs s)
        (sym (append-nil (frame (encode m) ++ []) ∙ append-nil (frame (encode m))))
      ∙ parse_stream-stream handle (m ∷ []) [] s (fit, tt) refl

  pub handle_all-snoc :
      (ms : List Message) (m : Message) (s : S)
      → handle_all handle (ms ++ m ∷ []) s ≡ handle (call_of m) (handle_all handle ms s)
  handle_all-snoc [] m s = refl
  handle_all-snoc (x ∷ ms) m s = handle_all-snoc ms m (handle (call_of x) s)
