-- ===== src/Net/Receiver/Either.antt =====
-- The early returns of `poll` and `on_packet`, taken together.
use itch_lob_engine.Base.{
  ◌≡◌, ◌==◌, ℕ, refl, inl, inr, true, Option, none, some, List, ltb, length, drop, Bool-cases,
  false,
}
use itch_lob_engine.Itch.Wire.{Bytes}
use itch_lob_engine.Itch.Messages.{Call}
use itch_lob_engine.Net.Moldudp64.{header_len, end_of_session, heartbeat, same_session, decode}
use itch_lob_engine.Net.Receiver.{Receiver, Reply, accept, on_packet, poll}

module _ {S : Type 0} (handle : Call → S → S) (P : ℕ × Receiver × S → Type 0) where
  on_packet-either :
      (buf : Bytes) (replies : List (List Reply)) (r : Receiver) (s : S)
      → P (0, r, s)
      → P (0, record r { ended = true }, s)
      → (same_session (decode buf).session r.session ≡ true
          → ((decode buf).count == end_of_session) ≡ false
          → ((decode buf).count == heartbeat) ≡ false
          → P (accept handle (decode buf).seq (decode buf).count (drop header_len buf) replies r s))
      → P (on_packet handle buf replies r s)
  unfolding on_packet
  on_packet-either buf replies r s p q f =
      elim (Bool-cases (same_session (decode buf).session r.session)) [
        | inr other ↦ rw other p
        | inl same ↦ elim (Bool-cases ((decode buf).count == end_of_session)) [
          | inl last ↦ rw (same, last) q
          | inr e ↦ elim (Bool-cases ((decode buf).count == heartbeat)) [
            | inl quiet ↦ rw (same, e, quiet) p
            | inr g ↦ rw (same, e, g) (f same e g)
          ]
        ]
      ]

  -- What holds where a poll delivers nothing, where it ends the session and where it accepts a packet
  -- of the session holds of every poll.
  pub poll-either :
      (packet : Option Bytes) (replies : List (List Reply)) (r : Receiver) (s : S)
      → P (0, r, s)
      → P (0, record r { ended = true }, s)
      → ((buf : Bytes)
          → packet ≡ some buf
          → same_session (decode buf).session r.session ≡ true
          → ((decode buf).count == end_of_session) ≡ false
          → ((decode buf).count == heartbeat) ≡ false
          → P (accept handle (decode buf).seq (decode buf).count (drop header_len buf) replies r s))
      → P (poll handle packet replies r s)
  unfolding poll
  poll-either none replies r s p q f = p
  poll-either (some buf) replies r s p q f = elim (Bool-cases (ltb (length buf) header_len)) [
    | inl short ↦ rw short p
    | inr long ↦ rw long (on_packet-either buf replies r s p q (f buf refl))
  ]
