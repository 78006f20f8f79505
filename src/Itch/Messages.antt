-- ===== src/Itch/Messages.antt =====
-- The decoded messages of include/itch/messages.hpp, and the handler calls that carry them.
use itch_lob_engine.Base.{◌==◌, if◌then◌else◌, ℕ, Bool, Option, none, some, List}

pub record Header : Type 0 where
  pub locate : ℕ
  pub timestamp : ℕ

-- `side` is the byte that the decoder casts to `Side`, with no check that it is 'B' or 'S'.
pub record AddOrder : Type 0 where
  pub hdr : Header
  pub ref : ℕ
  pub side : ℕ
  pub shares : ℕ
  pub stock : List ℕ
  pub price : ℕ

pub record OrderExecuted : Type 0 where
  pub hdr : Header
  pub ref : ℕ
  pub shares : ℕ
  pub match : ℕ

pub record OrderExecutedPrice : Type 0 where
  pub hdr : Header
  pub ref : ℕ
  pub shares : ℕ
  pub match : ℕ
  pub printable : Bool
  pub price : ℕ

pub record OrderCancel : Type 0 where
  pub hdr : Header
  pub ref : ℕ
  pub canceled : ℕ

pub record OrderDelete : Type 0 where
  pub hdr : Header
  pub ref : ℕ

pub record OrderReplace : Type 0 where
  pub hdr : Header
  pub orig_ref : ℕ
  pub new_ref : ℕ
  pub shares : ℕ
  pub price : ℕ

-- The handler's callbacks, with their arguments.
pub data Call : Type 0 where
  on_add : AddOrder → Call
  on_execute : OrderExecuted → Call
  on_execute_price : OrderExecutedPrice → Call
  on_cancel : OrderCancel → Call
  on_delete : OrderDelete → Call
  on_replace : OrderReplace → Call
  on_other : ℕ → ℕ → Call

-- The length that a type's payload has on the wire; `none` for the types that are skipped (-1).
unfoldable pub wire_size : ℕ → Option ℕ
wire_size type =
    if type == b'A'
    then some 36
    else if type == b'F'
    then some 40
    else if type == b'E'
    then some 31
    else if type == b'C'
    then some 36
    else if type == b'X'
    then some 23
    else if type == b'D'
    then some 19
    else if type == b'U'
    then some 35
    else none
