-- ===== src/Net/Sender/Packets.antt =====
-- What a receiver reads from the datagrams of the data channel.
use itch_lob_engine.Base.{
  ◌^◌, ◌+◌, ◌<◌, ◌≡◌, ◌∙◌, ◌∷◌, ◌++◌, if◌then◌else◌, ℕ, refl, sym, ap, ap₂, inl, inr, Bool, List,
  [], map, arith, length, drop, append-nil, Bool-cases,
}
use itch_lob_engine.Itch.Wire.{Bytes}
use itch_lob_engine.Itch.Encode.{frame, stream}
use itch_lob_engine.Itch.Encode.RoundTrip.{Message, encode}
use itch_lob_engine.Itch.Stream.RoundTrip.{encode_all}
use itch_lob_engine.Net.Moldudp64
use itch_lob_engine.Net.Moldudp64.{
  Header, header_len, session_len, end_of_session, decode, decode-encode, drop-encode,
}
use itch_lob_engine.Net.Sender.{load, packet, send_end_of_session, send_from, send_all}
use itch_lob_engine.Net.Sender.Honest.{
  frames_of, length-frames_of, load-stream, decode-packet, drop-packet,
}

-- The header of a datagram, and what stands behind it.
abbrev pub read : Bytes → Header × Bytes
read buf = (decode buf, drop header_len buf)

-- The messages with their sequence numbers, from `seq` on.
abbrev pub numbered : ℕ → List Message → List (ℕ × Message)
numbered seq [] = []
numbered seq (m ∷ ms) = (seq, m) ∷ numbered (seq + 1) ms

-- Those whose sequence number the test does not drop.
abbrev pub kept : (ℕ → Bool) → List (ℕ × Message) → List (ℕ × Message)
kept should_drop [] = []
kept should_drop ((seq, m) ∷ ms) =
    let rest : List (ℕ × Message) = kept should_drop ms in
    if should_drop seq then rest else (seq, m) ∷ rest

-- The packet of one message, as it is read.
abbrev pub data_packet : Bytes → ℕ × Message → Header × Bytes
data_packet session (seq, m) =
    (record { session = session; seq = seq; count = 1 }, frame (encode m))

-- The end of the session, as it is read: the sequence number is the one after the last message.
abbrev pub last_packet : Bytes → ℕ → Header × Bytes
last_packet session seq = (record { session = session; seq = seq; count = end_of_session }, [])

module _ (session : Bytes) (ten : length session ≡ session_len) (should_drop : ℕ → Bool) where
  read-packet :
      (seq : ℕ) (m : Message)
      → seq < 2 ^ 64
      → read (packet session seq 1 (frame (encode m))) ≡ data_packet session (seq, m)
  read-packet seq m small =
      ap₂ (λ (h : Header) (bs : Bytes). (h, bs))
        (decode-packet session ten seq 1 (frame (encode m)) small (omega arith))
        (drop-packet session ten seq 1 (frame (encode m)))

  read-end :
      (seq : ℕ) → seq < 2 ^ 64 → read (send_end_of_session session seq) ≡ last_packet session seq
  unfolding send_end_of_session
  read-end seq small =
      let h : Header = record { session = session; seq = seq; count = end_of_session } in
      let bare = append-nil (Moldudp64.encode [] h) in
      ap₂ (λ (g : Header) (bs : Bytes). (g, bs))
        (ap (λ p. decode p) (sym bare) ∙ decode-encode h [] ten small (omega arith))
        (ap (λ (p : Bytes). drop header_len p) (sym bare) ∙ drop-encode h [] ten)

  map-append : (xs ys : List Bytes) → map read (xs ++ ys) ≡ map read xs ++ map read ys
  map-append [] ys = refl
  map-append (x ∷ xs) ys = ap (λ (l : List (Header × Bytes)). read x ∷ l) (map-append xs ys)

  read-send_from :
      (seq : ℕ) (ms : List Message)
      → seq + length ms < 2 ^ 64
      → map read (send_from session should_drop seq (frames_of ms))
        ≡ map (data_packet session) (kept should_drop (numbered seq ms))
  unfolding send_from
  read-send_from seq [] small = refl
  read-send_from seq (m ∷ ms) small =
      let rest = read-send_from (seq + 1) ms (omega arith) in
      let this = read-packet seq m (omega arith) in
      elim (Bool-cases (should_drop seq)) [
        | inl lost ↦ rw lost rest
        | inr sent ↦
            rw sent (ap₂ (λ (p : Header × Bytes) (ps : List (Header × Bytes)). p ∷ ps) this rest)
      ]

  -- Of the messages that were loaded, framed one after the other, a session of less than 2^64 - 2 of
  -- them under a name of ten bytes puts on the wire, in this order: for each message whose sequence
  -- number is not dropped (they are numbered from 1) a packet that is read back with the session, this
  -- number and a count of one, and whose payload is the framed message; and then the end of the
  -- session, with the number after the last message and no payload.
  pub send_all-load :
      (ms : List Message)
      → 2 + length ms < 2 ^ 64
      → map read (send_all session should_drop (load (stream (encode_all ms))))
        ≡ map (data_packet session) (kept should_drop (numbered 1 ms))
          ++ last_packet session (length ms + 1) ∷ []
  unfolding send_all
  send_all-load ms small =
      let size = length-frames_of ms in
      ap (λ (fs : List Bytes). map read (send_all session should_drop fs)) (load-stream ms)
      ∙ map-append (send_from session should_drop 1 (frames_of ms))
          (send_end_of_session session (length (frames_of ms) + 1) ∷ [])
      ∙ ap₂ (λ (xs ys : List (Header × Bytes)). xs ++ ys) (read-send_from 1 ms (omega arith))
          (ap (λ (p : Header × Bytes). p ∷ [])
            (read-end (length (frames_of ms) + 1) (omega arith)
              ∙ ap (λ n. last_packet session (n + 1)) size))
