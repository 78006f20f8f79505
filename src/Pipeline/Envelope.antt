-- ===== src/Pipeline/Envelope.antt =====
-- `Envelope` of include/pipeline/message.hpp, what `QueueProducer` of
-- include/pipeline/threaded_replay.hpp puts in it for each callback, and `dispatch_to_book` of
-- include/pipeline/dispatch_to_book.hpp, which takes it out again.
pub mod Corrupt
use itch_lob_engine.Base.{
  ◌≡◌, ◌||◌, ◌∙◌, ◌==◌, if◌then◌else◌, ℕ, refl, ap, Bool, false, Option, none, some, arith,
  replicate, ◌^◌, ◌*◌, ◌/◌, ◌%◌, ◌-◌, ◌+◌, ◌≤◌, ◌<◌, ◌≢◌, ◌↔◌, ◌⊎◌, ◌&&◌, ◌∷◌, ◌++◌, zero, suc, min,
  max, sym, ap₂, subst, inl, inr, true, not, List, [], map, ltb, leb, length, get_or, set, take,
  drop, append-nil, append_assoc, Bool-cases, Option-cases, length-append, length-set,
  length-replicate, get_or-set_self, get_or-set_ne, get_or-replicate, ==→≡, ≡→==, ==→≢, ≢→==,
  length-drop, length-take_le, drop-nil, take-nil, drop-add, drop-take_add, take-take_le,
  get_or-take, take-append_le, drop-append_le, get_or-append,
}
use itch_lob_engine.Itch.Messages.{
  Call, on_add, on_execute, on_execute_price, on_cancel, on_delete, on_replace, on_other, AddOrder,
  OrderExecuted, OrderExecutedPrice, OrderCancel, OrderDelete, OrderReplace,
}
use itch_lob_engine.Pipeline.BookBuilder.{BookOps, BookBuilder, handle}

-- The active member of the union.
pub data Payload : Type 0 where
  add : AddOrder → Payload
  exec : OrderExecuted → Payload
  exec_price : OrderExecutedPrice → Payload
  cancel : OrderCancel → Payload
  del : OrderDelete → Payload
  replace : OrderReplace → Payload

pub record Envelope : Type 0 where
  pub type : ℕ
  pub payload : Payload

-- `.add = {}`
abbrev pub no_add : AddOrder
no_add = record {
  hdr = record { locate = 0; timestamp = 0 };
  ref = 0;
  side = 0;
  shares = 0;
  stock = replicate 9 0;
  price = 0;
}

-- What the callbacks of `QueueProducer` push.
unfoldable pub envelope : Call → Envelope
envelope (on_add m) = record { type = b'A'; payload = add m }
envelope (on_execute m) = record { type = b'E'; payload = exec m }
envelope (on_execute_price m) = record { type = b'C'; payload = exec_price m }
envelope (on_cancel m) = record { type = b'X'; payload = cancel m }
envelope (on_delete m) = record { type = b'D'; payload = del m }
envelope (on_replace m) = record { type = b'U'; payload = replace m }
envelope (on_other t len) = record { type = t; payload = add no_add }

-- A read of a union's member: none where another member is active, which is undefined behaviour.
abbrev pub as_add : Payload → Option Call
as_add (add m) = some (on_add m)
as_add _ = none

abbrev pub as_exec : Payload → Option Call
as_exec (exec m) = some (on_execute m)
as_exec _ = none

abbrev pub as_exec_price : Payload → Option Call
as_exec_price (exec_price m) = some (on_execute_price m)
as_exec_price _ = none

abbrev pub as_cancel : Payload → Option Call
as_cancel (cancel m) = some (on_cancel m)
as_cancel _ = none

abbrev pub as_del : Payload → Option Call
as_del (del m) = some (on_delete m)
as_del _ = none

abbrev pub as_replace : Payload → Option Call
as_replace (replace m) = some (on_replace m)
as_replace _ = none

-- The callback that the switch of `dispatch_to_book` makes.
unfoldable pub callback : Envelope → Option Call
callback e =
    if e.type == b'A' || e.type == b'F'
    then as_add e.payload
    else if e.type == b'E'
    then as_exec e.payload
    else if e.type == b'C'
    then as_exec_price e.payload
    else if e.type == b'X'
    then as_cancel e.payload
    else if e.type == b'D'
    then as_del e.payload
    else if e.type == b'U'
    then as_replace e.payload
    else some (on_other e.type 0)

-- `dispatch_to_book`; undefined behaviour stops the model.
unfoldable pub dispatch_to_book :
    {B : Type 0} → BookOps B → Envelope → BookBuilder B → Option (BookBuilder B)
unfolding callback handle
dispatch_to_book ops e h = elim (callback e) [ none ↦ none | some c ↦ some (handle ops c h) ]

-- The types that have a member of their own.
abbrev pub is_decoded : ℕ → Bool
is_decoded t =
    t == b'A' || t == b'F' || t == b'E' || t == b'C' || t == b'X' || t == b'D' || t == b'U'

-- A callback that the queue carries as it is: not one for a corrupt frame of a decoded type.
abbrev pub IsCarried : Call → Type 0
IsCarried (on_other t len) = is_decoded t ≡ false
IsCarried _ = Unit {0}

-- The length of a skipped frame is not carried.
abbrev pub without_len : Call → Call
without_len (on_other t len) = on_other t 0
without_len c = c

callback-envelope : (c : Call) → IsCarried c → callback (envelope c) ≡ some (without_len c)
unfolding callback envelope
callback-envelope (on_add m) h = refl
callback-envelope (on_execute m) h = refl
callback-envelope (on_execute_price m) h = refl
callback-envelope (on_cancel m) h = refl
callback-envelope (on_delete m) h = refl
callback-envelope (on_replace m) h = refl
callback-envelope (on_other t len) h = ground arith

module _ {B : Type 0} (ops : BookOps B) where
  handle-without_len :
      (c : Call) (h : BookBuilder B) → handle ops (without_len c) h ≡ handle ops c h
  unfolding handle
  handle-without_len (on_add m) h = refl
  handle-without_len (on_execute m) h = refl
  handle-without_len (on_execute_price m) h = refl
  handle-without_len (on_cancel m) h = refl
  handle-without_len (on_delete m) h = refl
  handle-without_len (on_replace m) h = refl
  handle-without_len (on_other t len) h = refl

  -- What the consumer does with the envelope of a callback is what the callback does directly, unless
  -- it is for a corrupt frame of one of the decoded types.
  pub dispatch_to_book-envelope :
      (c : Call) (h : BookBuilder B)
      → IsCarried c
      → dispatch_to_book ops (envelope c) h ≡ some (handle ops c h)
  unfolding dispatch_to_book
  dispatch_to_book-envelope c h carried =
      ap
        (λ (o : Option Call). elim o as (λ _. Option (BookBuilder B)) [
          | none ↦ none
          | some k ↦ some (handle ops k h)
        ])
        (callback-envelope c carried)
      ∙ ap (λ (k : BookBuilder B). some k) (handle-without_len c h)
