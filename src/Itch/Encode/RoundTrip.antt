-- ===== src/Itch/Encode/RoundTrip.antt =====
-- The decoder reads back what the encoders write, message type by message type.
use itch_lob_engine.Base.{
  ◌^◌, ◌-◌, ◌≤◌, ◌<◌, ◌≡◌, ◌≢◌, ◌∷◌, ◌++◌, ℕ, refl, true, [], arith, length, replicate, ≢→==, Bool,
  false,
}
use itch_lob_engine.Itch.Wire.{Bytes, octets16, octets32, octets48, octets64}
use itch_lob_engine.Itch.Messages.{
  Header, on_cancel, on_delete, Call, on_add, on_execute, on_execute_price, on_replace,
}
use itch_lob_engine.Itch.Dispatch.{dispatch, trim}
use itch_lob_engine.Itch.Encode.{stock8, cancel, del, add_order, executed, executed_price, replace}

-- A symbol: at most eight characters, none of them a space.
abbrev pub IsSymbol : Bytes → Type 0
IsSymbol [] = Unit {0}
IsSymbol (c ∷ s) = (c ≢ b' ') × IsSymbol s

-- The nine bytes of `stock` for a symbol: its characters, then NULs.
abbrev pub stock_field : Bytes → Bytes
stock_field s = s ++ replicate (9 - length s) 0

trim-pad : (s : Bytes) → IsSymbol s → length s ≤ 8 → trim 8 (stock8 s ++ 0 ∷ []) ≡ stock_field s
unfolding trim stock8
trim-pad [] h le = refl
trim-pad (a ∷ []) h le = rw (≢→== a b' ' h.0)
trim-pad (a ∷ b ∷ []) h le = rw (≢→== b b' ' h.1.0)
trim-pad (a ∷ b ∷ c ∷ []) h le = rw (≢→== c b' ' h.1.1.0)
trim-pad (a ∷ b ∷ c ∷ d ∷ []) h le = rw (≢→== d b' ' h.1.1.1.0)
trim-pad (a ∷ b ∷ c ∷ d ∷ e ∷ []) h le = rw (≢→== e b' ' h.1.1.1.1.0)
trim-pad (a ∷ b ∷ c ∷ d ∷ e ∷ f ∷ []) h le = rw (≢→== f b' ' h.1.1.1.1.1.0)
trim-pad (a ∷ b ∷ c ∷ d ∷ e ∷ f ∷ g ∷ []) h le = rw (≢→== g b' ' h.1.1.1.1.1.1.0)
trim-pad (a ∷ b ∷ c ∷ d ∷ e ∷ f ∷ g ∷ i ∷ []) h le = rw (≢→== i b' ' h.1.1.1.1.1.1.1.0)
trim-pad (a ∷ b ∷ c ∷ d ∷ e ∷ f ∷ g ∷ i ∷ j ∷ s) h le = absurd (omega arith)

module _ (locate ts ref : ℕ) (l : locate < 2 ^ 16) (t : ts < 2 ^ 48) (r : ref < 2 ^ 64) where
  abbrev head : Header
  head = record { locate = locate; timestamp = ts }

  -- A delete message comes back as it was encoded.
  pub dispatch-del :
      dispatch (del locate ts ref) ≡ (true, on_delete (record { hdr = head; ref = ref }))
  unfolding dispatch del
  dispatch-del = cc (octets16 locate l, octets48 ts t, octets64 ref r)

  pub dispatch-cancel :
      (canceled : ℕ)
      → canceled < 2 ^ 32
      → dispatch (cancel locate ts ref canceled)
        ≡ (true, on_cancel (record { hdr = head; ref = ref; canceled = canceled }))
  unfolding dispatch cancel
  dispatch-cancel canceled c =
      cc (octets16 locate l, octets48 ts t, octets64 ref r, octets32 canceled c)

  dispatch-executed :
      (shares match : ℕ)
      → shares < 2 ^ 32
      → match < 2 ^ 64
      → dispatch (executed locate ts ref shares match)
        ≡ (true, on_execute (record { hdr = head; ref = ref; shares = shares; match = match }))
  unfolding dispatch executed
  dispatch-executed shares match s m =
      cc (octets16 locate l, octets48 ts t, octets64 ref r, octets32 shares s, octets64 match m)

  dispatch-executed_price :
      (shares match : ℕ) (printable : Bool) (price : ℕ)
      → shares < 2 ^ 32
      → match < 2 ^ 64
      → price < 2 ^ 32
      → dispatch (executed_price locate ts ref shares match printable price) ≡ (
        true,
        on_execute_price (record {
          hdr = head;
          ref = ref;
          shares = shares;
          match = match;
          printable = printable;
          price = price;
        }),
      )
  unfolding dispatch executed_price
  dispatch-executed_price shares match true price s m p = cc (
    octets16 locate l,
    octets48 ts t,
    octets64 ref r,
    octets32 shares s,
    octets64 match m,
    octets32 price p,
  )
  dispatch-executed_price shares match false price s m p = cc (
    octets16 locate l,
    octets48 ts t,
    octets64 ref r,
    octets32 shares s,
    octets64 match m,
    octets32 price p,
  )

  dispatch-replace :
      (next shares price : ℕ)
      → next < 2 ^ 64
      → shares < 2 ^ 32
      → price < 2 ^ 32
      → dispatch (replace locate ts ref next shares price) ≡ (
        true,
        on_replace
            (record { hdr = head; orig_ref = ref; new_ref = next; shares = shares; price = price }),
      )
  unfolding dispatch replace
  dispatch-replace next shares price n s p = cc (
    octets16 locate l,
    octets48 ts t,
    octets64 ref r,
    octets64 next n,
    octets32 shares s,
    octets32 price p,
  )

  dispatch-add_order :
      (side shares : ℕ) (stock : Bytes) (price : ℕ)
      → shares < 2 ^ 32
      → IsSymbol stock
      → length stock ≤ 8
      → price < 2 ^ 32
      → dispatch (add_order locate ts ref side shares stock price) ≡ (
        true,
        on_add (record {
          hdr = head;
          ref = ref;
          side = side;
          shares = shares;
          stock = stock_field stock;
          price = price;
        }),
      )
  unfolding dispatch add_order
  dispatch-add_order side shares stock price s sym_ok short p = cc (
    octets16 locate l,
    octets48 ts t,
    octets64 ref r,
    octets32 shares s,
    octets32 price p,
    trim-pad stock sym_ok short,
  )

-- The messages that can be encoded.
pub data Message : Type 0 where
  adds : ℕ → ℕ → ℕ → ℕ → ℕ → Bytes → ℕ → Message
  executes : ℕ → ℕ → ℕ → ℕ → ℕ → Message
  executes_price : ℕ → ℕ → ℕ → ℕ → ℕ → Bool → ℕ → Message
  cancels : ℕ → ℕ → ℕ → ℕ → Message
  deletes : ℕ → ℕ → ℕ → Message
  replaces : ℕ → ℕ → ℕ → ℕ → ℕ → ℕ → Message

unfoldable pub encode : Message → Bytes
encode (adds locate ts ref side shares stock price) =
    add_order locate ts ref side shares stock price
encode (executes locate ts ref shares match) = executed locate ts ref shares match
encode (executes_price locate ts ref shares match printable price) =
    executed_price locate ts ref shares match printable price
encode (cancels locate ts ref canceled) = cancel locate ts ref canceled
encode (deletes locate ts ref) = del locate ts ref
encode (replaces locate ts orig next shares price) = replace locate ts orig next shares price

-- The callback that a message is for.
unfoldable pub call_of : Message → Call
call_of (adds locate ts ref side shares stock price) = on_add (record {
  hdr = record { locate = locate; timestamp = ts };
  ref = ref;
  side = side;
  shares = shares;
  stock = stock_field stock;
  price = price;
})
call_of (executes locate ts ref shares match) = on_execute (record {
  hdr = record { locate = locate; timestamp = ts };
  ref = ref;
  shares = shares;
  match = match;
})
call_of (executes_price locate ts ref shares match printable price) = on_execute_price (record {
  hdr = record { locate = locate; timestamp = ts };
  ref = ref;
  shares = shares;
  match = match;
  printable = printable;
  price = price;
})
call_of (cancels locate ts ref canceled) =
    on_cancel
      (record { hdr = record { locate = locate; timestamp = ts }; ref = ref; canceled = canceled })
call_of (deletes locate ts ref) =
    on_delete (record { hdr = record { locate = locate; timestamp = ts }; ref = ref })
call_of (replaces locate ts orig next shares price) = on_replace (record {
  hdr = record { locate = locate; timestamp = ts };
  orig_ref = orig;
  new_ref = next;
  shares = shares;
  price = price;
})

-- The header's fields and the order reference fit their wire widths.
abbrev HeadFits : ℕ → ℕ → ℕ → Type 0
HeadFits locate ts ref = (locate < 2 ^ 16) × (ts < 2 ^ 48) × (ref < 2 ^ 64)

-- Every field of a message fits its wire width.
abbrev pub MessageFits : Message → Type 0
MessageFits (adds locate ts ref side shares stock price) =
    HeadFits locate ts ref
    × (shares < 2 ^ 32)
    × IsSymbol stock
    × (length stock ≤ 8)
    × (price < 2 ^ 32)
MessageFits (executes locate ts ref shares match) =
    HeadFits locate ts ref × (shares < 2 ^ 32) × (match < 2 ^ 64)
MessageFits (executes_price locate ts ref shares match printable price) =
    HeadFits locate ts ref × (shares < 2 ^ 32) × (match < 2 ^ 64) × (price < 2 ^ 32)
MessageFits (cancels locate ts ref canceled) = HeadFits locate ts ref × (canceled < 2 ^ 32)
MessageFits (deletes locate ts ref) = HeadFits locate ts ref
MessageFits (replaces locate ts orig next shares price) =
    HeadFits locate ts orig × (next < 2 ^ 64) × (shares < 2 ^ 32) × (price < 2 ^ 32)

-- Whatever message is encoded, if its fields fit the wire and its symbol is one, `dispatch` accepts
-- the bytes and makes the message's callback with every field as it was.
pub dispatch-encode : (m : Message) → MessageFits m → dispatch (encode m) ≡ (true, call_of m)
unfolding encode call_of
dispatch-encode (adds locate ts ref side shares stock price) ((l, t, r), s, y, n, p) =
    dispatch-add_order locate ts ref l t r side shares stock price s y n p
dispatch-encode (executes locate ts ref shares match) ((l, t, r), s, m) =
    dispatch-executed locate ts ref l t r shares match s m
dispatch-encode (executes_price locate ts ref shares match printable price) ((l, t, r), s, m, p) =
    dispatch-executed_price locate ts ref l t r shares match printable price s m p
dispatch-encode (cancels locate ts ref canceled) ((l, t, r), c) =
    dispatch-cancel locate ts ref l t r canceled c
dispatch-encode (deletes locate ts ref) (l, t, r) = dispatch-del locate ts ref l t r
dispatch-encode (replaces locate ts orig next shares price) ((l, t, r), n, s, p) =
    dispatch-replace locate ts orig l t r next shares price n s p

-- An encoded message is neither empty nor too long for its length prefix.
pub length-encode : (m : Message) → (0 < length (encode m)) × (length (encode m) < 2 ^ 16)
unfolding encode add_order executed executed_price cancel del replace
length-encode (adds locate ts ref side shares stock price) = omega arith
length-encode (executes locate ts ref shares match) = omega arith
length-encode (executes_price locate ts ref shares match printable price) = omega arith
length-encode (cancels locate ts ref canceled) = omega arith
length-encode (deletes locate ts ref) = omega arith
length-encode (replaces locate ts orig next shares price) = omega arith
