-- ===== src/Pipeline/BookBuilder/Routing.antt =====
-- The book of one stock locate, and what the messages of this locate alone make of it.
use itch_lob_engine.Base.{
  ◌≡◌, ◌∙◌, ◌∷◌, ◌==◌, if◌then◌else◌, ℕ, refl, sym, ap, subst, inl, inr, Bool, Option, some, List,
  [], Bool-cases, ==→≡, ==→≢,
}
use itch_lob_engine.Itch.Messages.{
  Call, on_add, on_execute, on_execute_price, on_cancel, on_delete, on_replace, on_other,
}
use itch_lob_engine.Pipeline.BookTable.{find, or_made, update, find-update, find-update_other}
use itch_lob_engine.Pipeline.BookBuilder.{BookOps, BookBuilder, route, handle}

module _ {B : Type 0} (ops : BookOps B) where
  unfoldable pub handle_all : List Call → BookBuilder B → BookBuilder B
  unfolding handle
  handle_all [] h = h
  handle_all (c ∷ cs) h = handle_all cs (handle ops c h)

  -- The book of one locate, once a mutator of a message with locate `l` is applied.
  abbrev pub own_step : ℕ → ℕ → ℕ → (B → Bool × B) → Option B → Option B
  own_step k l hint f b = if l == k then some (f (or_made (ops.make hint) b)).1 else b

  -- What a message makes of the book of locate `k`, on its own.
  abbrev pub own : ℕ → Call → Option B → Option B
  own k (on_add m) b = own_step k m.hdr.locate m.price (ops.add m.ref m.side m.shares m.price) b
  own k (on_execute m) b = own_step k m.hdr.locate 0 (ops.execute m.ref m.shares) b
  own k (on_execute_price m) b = own_step k m.hdr.locate 0 (ops.execute m.ref m.shares) b
  own k (on_cancel m) b = own_step k m.hdr.locate 0 (ops.cancel m.ref m.canceled) b
  own k (on_delete m) b = own_step k m.hdr.locate 0 (ops.remove m.ref) b
  own k (on_replace m) b =
      own_step k m.hdr.locate m.price (ops.replace m.orig_ref m.new_ref m.shares m.price) b
  own k (on_other t len) b = b

  abbrev pub own_all : ℕ → List Call → Option B → Option B
  own_all k [] b = b
  own_all k (c ∷ cs) b = own_all k cs (own k c b)

  route-books :
      (t l hint : ℕ) (f : B → Bool × B) (h : BookBuilder B)
      → (route ops.make t l hint f h).books ≡ (update ops.make l hint f h.books).1
  unfolding route
  route-books t l hint f h = refl

  update-own :
      (k l hint : ℕ) (f : B → Bool × B) (slots : List (Option B))
      → find k (update ops.make l hint f slots).1 ≡ own_step k l hint f (find k slots)
  update-own k l hint f slots = elim (Bool-cases (l == k)) [
    | inl same ↦ rw same (
        subst
          (λ j.
            find j (update ops.make l hint f slots).1
            ≡ some (f (or_made (ops.make hint) (find j slots))).1)
          (==→≡ l k same) (find-update ops.make l hint slots f))
    | inr other ↦
        rw other (find-update_other ops.make l hint slots f k (λ e. ==→≢ l k other (sym e)))
  ]

  route-own :
      (k t l hint : ℕ) (f : B → Bool × B) (h : BookBuilder B)
      → find k (route ops.make t l hint f h).books ≡ own_step k l hint f (find k h.books)
  route-own k t l hint f h = ap (find k) (route-books t l hint f h) ∙ update-own k l hint f h.books

  pub handle-own :
      (k : ℕ) (c : Call) (h : BookBuilder B)
      → find k (handle ops c h).books ≡ own k c (find k h.books)
  unfolding handle
  handle-own k (on_add m) h =
      route-own k 65 m.hdr.locate m.price (ops.add m.ref m.side m.shares m.price) h
  handle-own k (on_execute m) h = route-own k 69 m.hdr.locate 0 (ops.execute m.ref m.shares) h
  handle-own k (on_execute_price m) h = route-own k 67 m.hdr.locate 0 (ops.execute m.ref m.shares) h
  handle-own k (on_cancel m) h = route-own k 88 m.hdr.locate 0 (ops.cancel m.ref m.canceled) h
  handle-own k (on_delete m) h = route-own k 68 m.hdr.locate 0 (ops.remove m.ref) h
  handle-own k (on_replace m) h =
      route-own k 85 m.hdr.locate m.price (ops.replace m.orig_ref m.new_ref m.shares m.price) h
  handle-own k (on_other t len) h = refl

  -- After any sequence of callbacks, the book that the table has for a stock locate is the one that
  -- the locate's own messages make, applied in order to the book that it had: made on the locate's
  -- first message, with the price of this message as its hint where it is an add or a replace and with 0
  -- as its hint where it is any other, and untouched by the messages of all other locates.
  pub handle_all-own :
      (k : ℕ) (cs : List Call) (h : BookBuilder B)
      → find k (handle_all cs h).books ≡ own_all k cs (find k h.books)
  unfolding handle_all
  handle_all-own k [] h = refl
  handle_all-own k (c ∷ cs) h =
      handle_all-own k cs (handle ops c h) ∙ ap (own_all k cs) (handle-own k c h)
