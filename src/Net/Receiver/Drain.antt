-- ===== src/Net/Receiver/Drain.antt =====
-- `drain` in a session that sends each message in a packet of its own.
use itch_lob_engine.Base.{
  ◌-◌, ◌+◌, ◌≡◌, ◌∙◌, ◌∷◌, ◌==◌, ℕ, ap, inl, inr, true, false, List, [], arith, length, take,
  Bool-cases, ◌^◌, ◌%◌, ◌<◌, if◌then◌else◌, suc, refl, sym, subst, ==→≡, ≡→==,
}
use itch_lob_engine.Itch.Wire.{Bytes}
use itch_lob_engine.Itch.Messages.{Call}
use itch_lob_engine.Itch.Encode.RoundTrip.{Message, call_of, MessageFits}
use itch_lob_engine.Itch.Stream.RoundTrip.{handle_all, AllFit}
use itch_lob_engine.Net.Receiver.{
  PendingPacket, Receiver, front_is_next, Pending, parse_stream, drain_from, advance,
}
use itch_lob_engine.Net.Receiver.Session.{
  drained-AllKept, AllFit-drop, take-drop-suc, parse_one, handle_all-snoc, AllFit-drop,
  take-drop-suc, parse_one, drained-AllKept,
}
use itch_lob_engine.Net.Receiver.Delivery.{InvAt, Inv}

module _ {S : Type 0} (handle : Call → S → S) (ms : List Message) (session : Bytes) (init : S)
    (qs : List ℕ) where
  -- The packet that is next is delivered.
  delivered :
      (k : ℕ) (p : PendingPacket) (ps : Pending) (own : Bytes) (s : S)
      → AllFit ms
      → 1 + length ms < 2 ^ 64
      → InvAt handle ms session init qs k own 0 ((k, p) ∷ ps) s
      → (m : Message) × (parse_stream handle p.payload s ≡ (1, handle (call_of m) s))
        × (p.count ≡ 1)
        × InvAt handle ms session init qs ((k + 1) % 2 ^ 64) own 0 ps (handle (call_of m) s)
  delivered k p ps own s fit small i =
      let ((pos, m, rest, at, is_frame, one), carried) = i.carried in
      let fits : MessageFits m = (subst (AllFit) at (AllFit-drop (k - 1) ms fit)).0 in
      let (longer, lt) = take-drop-suc (k - 1) ms m rest at in
      let wrap : k + 1 ≡ (k + 1) % 2 ^ 64 = omega (arith, i.within) in
      (
        m,
        ap (λ (bs : Bytes). parse_stream handle bs s) is_frame ∙ parse_one handle m s fits,
        one,
        subst (λ next. InvAt handle ms session init qs next own 0 ps (handle (call_of m) s)) wrap
            (record {
              started = omega arith;
              within = omega (arith, lt, pos);
              session_is = i.session_is;
              carried = carried;
              ordered = i.ordered.1;
              kept = drained-AllKept qs k p ps i.kept;
              no_mismatch = refl;
              state =
                  ap (handle (call_of m)) i.state
                  ∙ sym (handle_all-snoc handle (take (k - 1) ms) m init)
                  ∙ ap (λ (xs : List Message). handle_all handle xs init) (sym longer)
                  ∙ ap (λ n. handle_all handle (take n ms) init)
                      (let e : suc (k - 1) ≡ k + 1 - 1 = omega arith in e);
            }),
      )

  advance-Inv :
      (p : PendingPacket) (ps : Pending) (r : Receiver) (s : S)
      → AllFit ms
      → 1 + length ms < 2 ^ 64
      → InvAt handle ms session init qs r.next_seq r.session r.count_mismatches
          ((r.next_seq, p) ∷ ps)
          s
      → (m : Message) × (parse_stream handle p.payload s ≡ (1, handle (call_of m) s))
        × Inv handle ms session init qs (advance 1 p ps r) (handle (call_of m) s)
  unfolding advance
  advance-Inv p ps r s fit small i =
      let none_so_far = i.no_mismatch in
      let (m, parsed, one, j) = delivered r.next_seq p ps r.session s fit small (
        subst (λ n. InvAt handle ms session init qs r.next_seq r.session n ((r.next_seq, p) ∷ ps) s)
          none_so_far i) in
      let same : 0
          ≡ (if 1 == p.count then r.count_mismatches else (r.count_mismatches + 1) % 2 ^ 64) =
        ground arith in
      (
        m,
        parsed,
        subst
            (λ n.
              InvAt handle ms session init qs ((r.next_seq + 1) % 2 ^ 64) r.session n ps
                (handle (call_of m) s))
            same j,
      )

  drain_next :
      (p : PendingPacket) (ps : Pending) (r : Receiver) (s : S) (frames : ℕ) (m : Message)
      → parse_stream handle p.payload s ≡ (1, handle (call_of m) s)
      → drain_from handle ((r.next_seq, p) ∷ ps) r s frames
        ≡ drain_from handle ps (advance 1 p ps r) (handle (call_of m) s) (frames + 1)
  unfolding drain_from
  drain_next p ps r s frames m parsed =
      let next : (r.next_seq == r.next_seq) ≡ true = ≡→== r.next_seq r.next_seq refl in
      rw (next, parsed) refl

  drain_stop :
      (ps : Pending) (r : Receiver) (s : S) (frames : ℕ)
      → front_is_next ps r.next_seq ≡ false
      → drain_from handle ps r s frames ≡ (frames, r, s)
  unfolding drain_from
  drain_stop [] r s frames h = refl
  drain_stop ((k, p) ∷ ps) r s frames h = rw h refl

  stopped :
      (ps : Pending) (r : Receiver) (s : S) (frames : ℕ)
      → r.pending ≡ ps
      → front_is_next ps r.next_seq ≡ false
      → Inv handle ms session init qs r s
      → let t : ℕ × Receiver × S = drain_from handle ps r s frames in
        Inv handle ms session init qs t.1 t.2 × (front_is_next t.1.pending t.1.next_seq ≡ false)
  stopped ps r s frames e h i =
      subst
        (λ (t : ℕ × Receiver × S).
          Inv handle ms session init qs t.1 t.2 × (front_is_next t.1.pending t.1.next_seq ≡ false))
        (sym (drain_stop ps r s frames h)) (i, ap (λ ps. front_is_next ps r.next_seq) e ∙ h)

  -- All packets that follow one another from `next_seq_` on are delivered.
  pub drain_from-Inv :
      (ps : Pending) (r : Receiver) (s : S) (frames : ℕ)
      → AllFit ms
      → 1 + length ms < 2 ^ 64
      → r.pending ≡ ps
      → Inv handle ms session init qs r s
      → let t : ℕ × Receiver × S = drain_from handle ps r s frames in
        Inv handle ms session init qs t.1 t.2 × (front_is_next t.1.pending t.1.next_seq ≡ false)
  unfolding advance
  drain_from-Inv [] r s frames fit small e i = stopped [] r s frames e refl i
  drain_from-Inv ((k, p) ∷ ps) r s frames fit small e i = elim (Bool-cases (k == r.next_seq)) [
    | inr other ↦ stopped ((k, p) ∷ ps) r s frames e other i
    | inl same ↦
        let at : (k, p) ∷ ps ≡ (r.next_seq, p) ∷ ps =
          ap (λ n. (n, p) ∷ ps) (==→≡ k r.next_seq same) in
        let (m, parsed, j) = advance-Inv p ps r s fit small (
          subst
            (λ rest. InvAt handle ms session init qs r.next_seq r.session r.count_mismatches rest s)
            (e ∙ at) i) in
        subst
          (λ (t : ℕ × Receiver × S).
            Inv handle ms session init qs t.1 t.2
            × (front_is_next t.1.pending t.1.next_seq ≡ false))
          (sym
            (ap (λ ps. drain_from handle ps r s frames) at ∙ drain_next p ps r s frames m parsed))
          (drain_from-Inv ps (advance 1 p ps r) (handle (call_of m) s) (frames + 1) fit small refl
            j)
  ]
