-- ===== src/Net/Sender/Honest.antt =====
-- What the sender of a stream of messages puts on the wire.
use itch_lob_engine.Base.{
  ◌^◌, ◌%◌, ◌-◌, ◌+◌, ◌≤◌, ◌<◌, ◌≡◌, ◌||◌, ◌∙◌, ◌∷◌, ◌++◌, ◌==◌, ℕ, zero, suc, refl, sym, ap, ap₂,
  subst, inl, inr, Bool, Option, none, some, List, [], arith, ltb, length, get_or, take, drop,
  append-nil, Bool-cases, drop-add,
}
use itch_lob_engine.Itch.Wire.{Bytes, octet}
use itch_lob_engine.Itch.Encode.{frame, stream}
use itch_lob_engine.Itch.Encode.RoundTrip.{Message, encode, length-encode}
use itch_lob_engine.Itch.Stream.{frame_size}
use itch_lob_engine.Itch.Stream.RoundTrip.{
  AllFit, encode_all, frame_size-frame, after-frame, length-frame,
}
use itch_lob_engine.Net.Moldudp64
use itch_lob_engine.Net.Moldudp64.{
  Header, header_len, session_len, heartbeat, end_of_session, same_session, decode, decode-encode,
  drop-encode, take-append_len,
}
use itch_lob_engine.Net.Receiver.Session.{Carries, take-drop-suc}
use itch_lob_engine.Net.Receiver.Delivery.{Honest, last, carrying}
use itch_lob_engine.Net.Sender.{
  load_from, load, packet, send_end_of_session, send_from, send_all, serve_from, serve_one_request,
}

-- The messages as the sender keeps them.
abbrev pub frames_of : List Message → List Bytes
frames_of [] = []
frames_of (m ∷ ms) = frame (encode m) ∷ frames_of ms

take-frame : (m rest : Bytes) → take (2 + length m) (frame m ++ rest) ≡ frame m
unfolding frame
take-frame m rest =
    ap (λ n. take n (frame m ++ rest))
      (let e : 2 + length m ≡ suc (suc (length m)) = omega arith in e)
    ∙ ap (λ (xs : Bytes). octet (length m % 2 ^ 16) 8 ∷ octet (length m % 2 ^ 16) 0 ∷ xs)
        (take-append_len m rest)

load_some :
    (f : ℕ) (bs : Bytes) (n : ℕ)
    → frame_size bs ≡ some n
    → load_from (suc f) bs ≡ take (2 + n) bs ∷ load_from f (drop (2 + n) bs)
unfolding load_from
load_some f bs n e = rw (e, load_from) refl

pub length-frames_of : (ms : List Message) → length (frames_of ms) ≡ length ms
length-frames_of [] = refl
length-frames_of (m ∷ ms) = ap suc (length-frames_of ms)

load_zero : (bs : Bytes) → load_from zero bs ≡ []
unfolding load_from
load_zero bs = refl

load_none : (f : ℕ) → load_from (suc f) [] ≡ []
unfolding load_from
load_none f = refl

load_from-stream :
    (ms : List Message) (f : ℕ)
    → length (stream (encode_all ms)) ≤ f
    → load_from f (stream (encode_all ms)) ≡ frames_of ms
unfolding stream
load_from-stream [] zero h = load_zero []
load_from-stream [] (suc f) h = load_none f
load_from-stream (m ∷ ms) zero h =
    absurd (omega (arith, length-frame (encode m) (stream (encode_all ms))))
load_from-stream (m ∷ ms) (suc f) h =
    let rest : Bytes = stream (encode_all ms) in
    let size = length-encode m in
    let short : length rest ≤ f = omega (arith, length-frame (encode m) rest) in
    load_some f (frame (encode m) ++ rest) (length (encode m))
      (frame_size-frame (encode m) rest size.0 size.1)
    ∙ ap₂ (λ (x : Bytes) (xs : List Bytes). x ∷ xs) (take-frame (encode m) rest)
        (ap (load_from f) (after-frame (encode m) rest) ∙ load_from-stream ms f short)

-- A stream of messages is split into its messages.
pub load-stream : (ms : List Message) → load (stream (encode_all ms)) ≡ frames_of ms
unfolding load
load-stream ms = load_from-stream ms (length (stream (encode_all ms))) (omega arith)

module _ (session : Bytes) (ten : length session ≡ session_len) where
  pub decode-packet :
      (seq count : ℕ) (payload : Bytes)
      → seq < 2 ^ 64
      → count < 2 ^ 16
      → decode (packet session seq count payload)
        ≡ record { session = session; seq = seq; count = count }
  unfolding packet
  decode-packet seq count payload small fits =
      decode-encode (record { session = session; seq = seq; count = count }) payload ten small fits

  pub drop-packet :
      (seq count : ℕ) (payload : Bytes)
      → drop header_len (packet session seq count payload) ≡ payload
  unfolding packet
  drop-packet seq count payload =
      drop-encode (record { session = session; seq = seq; count = count }) payload ten

  module _ (ms : List Message) (fit : AllFit ms) (small : 2 + length ms < 2 ^ 64) where
    -- The packet of a message.
    pub packet-Honest :
        (seq : ℕ) (m : Message) (rest : List Message)
        → 1 ≤ seq
        → drop (seq - 1) ms ≡ m ∷ rest
        → Honest ms session (packet session seq 1 (frame (encode m)))
    packet-Honest seq m rest pos at =
        let lt = (take-drop-suc (seq - 1) ms m rest at).1 in
        let d = decode-packet seq 1 (frame (encode m)) (omega arith) (omega arith) in
        carrying (
          subst
            (λ (h : Header). Carries ms h.seq (record {
              count = h.count;
              payload = drop header_len (packet session seq 1 (frame (encode m)));
            }))
            (sym d) (pos, m, rest, at, drop-packet seq 1 (frame (encode m)), refl))

    abbrev pub AllSent : List Bytes → Type 0
    AllSent [] = Unit {0}
    AllSent (b ∷ bs) = Honest ms session b × AllSent bs

    AllSent-append : (xs ys : List Bytes) → AllSent xs → AllSent ys → AllSent (xs ++ ys)
    AllSent-append [] ys h k = k
    AllSent-append (x ∷ xs) ys (g, h) k = (g, AllSent-append xs ys h k)

    send_from-Honest :
        (should_drop : ℕ → Bool) (rest : List Message) (k : ℕ)
        → drop k ms ≡ rest
        → AllSent (send_from session should_drop (k + 1) (frames_of rest))
    unfolding send_from
    send_from-Honest should_drop [] k at = tt
    send_from-Honest should_drop (m ∷ rest) k at =
        let tail : AllSent (send_from session should_drop (k + 1 + 1) (frames_of rest)) =
          send_from-Honest should_drop rest (k + 1) (drop-add k 1 ms ∙ ap (drop 1) at) in
        let this : Honest ms session (packet session (k + 1) 1 (frame (encode m))) =
          packet-Honest (k + 1) m rest (omega arith)
            (ap (λ n. drop n ms) (let e : k + 1 - 1 ≡ k = omega arith in e) ∙ at) in
        elim (Bool-cases (should_drop (k + 1))) [
          | inl lost ↦ rw lost tail
          | inr sent ↦ rw sent (this, tail)
        ]

    end-Honest : (seq : ℕ) → seq < 2 ^ 64 → Honest ms session (send_end_of_session session seq)
    unfolding send_end_of_session
    end-Honest seq fits =
        let h : Header = record { session = session; seq = seq; count = end_of_session } in
        let d : decode (Moldudp64.encode [] h) ≡ h =
          ap (λ p. decode p) (sym (append-nil (Moldudp64.encode [] h)))
          ∙ decode-encode h [] ten fits (omega arith) in
        last (ap (λ (g : Header). g.count == end_of_session) d)

    -- Whichever packets are lost, every datagram on the data channel is one that the receiver may get.
    pub send_all-Honest :
        (should_drop : ℕ → Bool) → AllSent (send_all session should_drop (frames_of ms))
    unfolding send_all
    send_all-Honest should_drop =
        AllSent-append (send_from session should_drop 1 (frames_of ms))
          (send_end_of_session session (length (frames_of ms) + 1) ∷ [])
          (send_from-Honest should_drop ms 0 refl)
          (end-Honest (length (frames_of ms) + 1) (omega (arith, length-frames_of ms)), tt)

    lookup :
        (xs : List Message) (k : ℕ)
        → k < length xs
        → (m : Message) × (rest : List Message) × (drop k xs ≡ m ∷ rest)
          × (get_or (frames_of xs) k [] ≡ frame (encode m))
    lookup [] k h = absurd (omega arith)
    lookup (m ∷ xs) zero h = (m, xs, refl, refl)
    lookup (m ∷ xs) (suc k) h = lookup xs k (omega arith)

    serve_from-Honest : (left seq : ℕ) → AllSent (serve_from session (frames_of ms) left seq)
    unfolding serve_from
    serve_from-Honest zero seq = tt
    serve_from-Honest (suc left) seq =
        let tail = serve_from-Honest left ((seq + 1) % 2 ^ 64) in
        elim (Bool-cases (ltb seq 1 || ltb (length (frames_of ms)) seq)) [
          | inl out ↦ rw out tt
          | inr known ↦
              let size = length-frames_of ms in
              let (m, rest, at, is_m) = lookup ms (seq - 1) (ground arith) in
              let this : Honest ms session
                  (packet session seq 1 (get_or (frames_of ms) (seq - 1) [])) =
                subst (λ p. Honest ms session (packet session seq 1 p)) (sym is_m)
                  (packet-Honest seq m rest (ground arith) at) in
              rw known (this, tail)
        ]

    abbrev pub AllAnswered : Option (List Bytes) → Type 0
    AllAnswered none = Unit {0}
    AllAnswered (some replies) = AllSent replies

    -- So is every reply to a request, whatever the request asks for.
    pub serve_one_request-Honest :
        (buf : Bytes) → AllAnswered (serve_one_request session (frames_of ms) buf)
    unfolding serve_one_request
    serve_one_request-Honest buf = elim (Bool-cases (ltb (length buf) header_len)) [
      | inl short ↦ rw short tt
      | inr long ↦ elim (Bool-cases (same_session (decode buf).session session)) [
        | inr other ↦ rw (long, other) tt
        | inl own ↦ rw (long, own) (serve_from-Honest (decode buf).count (decode buf).seq)
      ]
    ]
