-- ===== src/Net/Receiver/InOrder.antt =====
-- What the handler has had of a session that sends each message in a packet of its own, whichever
-- packets arrive.
use mathlib.Core.Bool.{false≢true}
use itch_lob_engine.Base.{
  ◌^◌, ◌-◌, ◌+◌, ◌≤◌, ◌<◌, ◌≡◌, ◌∙◌, ◌∷◌, ◌==◌, ℕ, refl, sym, ap, subst, inl, inr, true, false,
  Option, List, [], arith, ltb, length, take, drop, Bool-cases,
}
use itch_lob_engine.Itch.Wire.{Bytes}
use itch_lob_engine.Itch.Messages.{Call}
use itch_lob_engine.Itch.Encode.RoundTrip.{Message}
use itch_lob_engine.Itch.Stream.RoundTrip.{AllFit, handle_all}
use itch_lob_engine.Net.Moldudp64.{header_len, end_of_session, heartbeat, same_session, decode}
use itch_lob_engine.Net.Receiver.{
  Receiver, new_receiver, Reply, buffer, front_is_next, resolve_gaps, resolve_gaps_from, drain_from,
  drain, accept, poll, polls,
}
use itch_lob_engine.Net.Receiver.Either.{poll-either}
use itch_lob_engine.Net.Receiver.Session.{Carries}
use itch_lob_engine.Net.Receiver.Delivery.{
  Honest, foreign, quiet, last, carrying, HonestPacket, AllRounds, AllHonest, Inv, buffer-Inv,
  resolve_gaps_from-Inv,
}
use itch_lob_engine.Net.Receiver.Drain.{drain_from-Inv}

-- A datagram that gets as far as `accept` is the packet of a message.
pub own_packet :
    (ms : List Message) (session buf : Bytes)
    → Honest ms session buf
    → same_session (decode buf).session session ≡ true
    → ((decode buf).count == end_of_session) ≡ false
    → ((decode buf).count == heartbeat) ≡ false
    → Carries ms
        (decode buf).seq
        (record { count = (decode buf).count; payload = drop header_len buf })
own_packet ms session buf (foreign h) own not_end not_quiet = absurd (false≢true (sym h ∙ own))
own_packet ms session buf (quiet h) own not_end not_quiet = absurd (false≢true (sym not_quiet ∙ h))
own_packet ms session buf (last h) own not_end not_quiet = absurd (false≢true (sym not_end ∙ h))
own_packet ms session buf (carrying c) own not_end not_quiet = c

module _ {S : Type 0} (handle : Call → S → S) where
  accept_old :
      (seq count : ℕ) (payload : Bytes) (rounds : List (List Reply)) (r : Receiver) (s : S)
      → ltb seq r.next_seq ≡ true
      → accept handle seq count payload rounds r s ≡ (0, r, s)
  unfolding accept
  accept_old seq count payload rounds r s h = rw h refl

  accept_new :
      (seq count : ℕ) (payload : Bytes) (rounds : List (List Reply)) (r : Receiver) (s : S)
      → ltb seq r.next_seq ≡ false
      → let u : Receiver = resolve_gaps_from 5 rounds (buffer seq count payload r) in
        accept handle seq count payload rounds r s ≡ drain_from handle u.pending u s 0
  unfolding accept drain resolve_gaps
  accept_new seq count payload rounds r s h = rw h refl

  module _ (ms : List Message) (session : Bytes) (init : S) (fit : AllFit ms)
      (small : 1 + length ms < 2 ^ 64) where
    -- The invariant, and nothing more to drain.
    abbrev pub Settled : List ℕ → ℕ × Receiver × S → Type 0
    Settled qs t =
        Inv handle ms session init qs t.1 t.2 × (front_is_next t.1.pending t.1.next_seq ≡ false)

    pub accept-Settled :
        (qs : List ℕ) (seq count : ℕ) (payload : Bytes) (rounds : List (List Reply)) (r : Receiver)
        (s : S)
        → AllRounds ms session rounds
        → (seq < r.next_seq → Settled qs (0, r, s))
        → (r.next_seq ≤ seq → Inv handle ms session init qs (buffer seq count payload r) s)
        → Settled qs (accept handle seq count payload rounds r s)
    accept-Settled qs seq count payload rounds r s honest old new =
        elim (Bool-cases (ltb seq r.next_seq)) [
          | inl lt ↦
              subst (Settled qs) (sym (accept_old seq count payload rounds r s lt))
                (old (ground arith))
          | inr ge ↦
              let b : Receiver = buffer seq count payload r in
              let u : Receiver = resolve_gaps_from 5 rounds b in
              subst (Settled qs) (sym (accept_new seq count payload rounds r s ge)) (
                drain_from-Inv handle ms session init qs u.pending u s 0 fit small refl (
                  resolve_gaps_from-Inv handle ms session init qs 5 rounds b s honest
                    (new (ground arith))))
        ]

    pub poll-Settled :
        (qs : List ℕ) (packet : Option Bytes) (rounds : List (List Reply)) (r : Receiver) (s : S)
        → HonestPacket ms session packet
        → AllRounds ms session rounds
        → Settled qs (0, r, s)
        → Settled qs (poll handle packet rounds r s)
    poll-Settled qs packet rounds r s honest replies (i, settled) =
        poll-either handle (Settled qs) packet rounds r s (i, settled) (i, settled)
          (λ buf is_buf own not_end not_quiet.
            let c =
              own_packet ms session buf (subst (HonestPacket ms session) is_buf honest)
                (ap (same_session (decode buf).session) (sym i.session_is) ∙ own) not_end
                not_quiet in
            accept-Settled qs (decode buf).seq (decode buf).count (drop header_len buf) rounds r s
              replies (λ old. (i, settled))
              (λ new.
                buffer-Inv handle ms session init qs (decode buf).seq (decode buf).count
                  (drop header_len buf) r s i new c))

    pub polls-Settled :
        (qs : List ℕ) (events : List (Option Bytes × List (List Reply))) (r : Receiver) (s : S)
        → AllHonest ms session events
        → Settled qs (0, r, s)
        → let t : Receiver × S = polls handle events r s in Settled qs (0, t.0, t.1)
    unfolding polls
    polls-Settled qs [] r s honest i = i
    polls-Settled qs ((packet, rounds) ∷ rest) r s (h, hs, later) i =
        let t : ℕ × Receiver × S = poll handle packet rounds r s in
        polls-Settled qs rest t.1 t.2 later (poll-Settled qs packet rounds r s h hs i)

    pub new_receiver-Settled : Settled [] (0, new_receiver session, init)
    new_receiver-Settled = (
      record {
        started = omega arith;
        within = omega arith;
        session_is = refl;
        carried = tt;
        ordered = tt;
        kept = tt;
        no_mismatch = refl;
        state = refl;
      },
      refl,
    )

    -- Packets of a session that sends each message in a packet of its own, any of them, in any order and
    -- any number of times, as datagrams and as replies to requests: the handler has had the messages
    -- before `next_seq_`, in order, each once; no count disagrees.
    pub polls-in_order :
        (events : List (Option Bytes × List (List Reply)))
        → AllHonest ms session events
        → let t : Receiver × S = polls handle events (new_receiver session) init in
          (1 ≤ t.0.next_seq)
          × (t.0.next_seq ≤ 1 + length ms)
          × (t.0.count_mismatches ≡ 0)
          × (t.1 ≡ handle_all handle (take (t.0.next_seq - 1) ms) init)
    polls-in_order events honest =
        let (i, settled) =
          polls-Settled [] events (new_receiver session) init honest new_receiver-Settled in
        (i.started, i.within, i.no_mismatch, i.state)
