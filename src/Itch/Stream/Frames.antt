-- ===== src/Itch/Stream/Frames.antt =====
-- How the walks over a buffer's frames go on: fuel, prefixes, and bytes that come later.
use itch_lob_engine.Base.{
  ◌-◌, ◌+◌, ◌≤◌, ◌<◌, ◌≡◌, ◌∙◌, ◌++◌, ℕ, zero, suc, refl, sym, ap, ap₂, subst, inl, inr, none, some,
  arith, length, take, drop, Option-cases, length-append, length-drop, length-take_le, drop-add,
  drop-take_add, take-take_le, get_or-take, take-append_le, drop-append_le, get_or-append,
}
use itch_lob_engine.Itch.Wire.{Bytes, be16}
use itch_lob_engine.Itch.Messages.{Call}
use itch_lob_engine.Itch.Dispatch.{dispatch}
use itch_lob_engine.Itch.Stream.{frame_size, payload, after, parse_from, boundary_from}

-- A frame is not empty and lies inside the buffer.
pub frame_size-bound : (bs : Bytes) (m : ℕ) → frame_size bs ≡ some m → (0 < m) × (2 + m ≤ length bs)
unfolding frame_size
frame_size-bound bs m h = ground arith

-- It stays the frame when bytes follow.
pub frame_size-append : (a b : Bytes) (m : ℕ) → frame_size a ≡ some m → frame_size (a ++ b) ≡ some m
unfolding frame_size be16
frame_size-append a b m h =
    ground (arith, length-append a b, get_or-append 0 a b 0, get_or-append 1 a b 0)

-- It is the frame of every prefix that holds it.
pub frame_size-take :
    (k : ℕ) (bs : Bytes) (m : ℕ)
    → 2 + m ≤ k
    → k ≤ length bs
    → frame_size bs ≡ some m
    → frame_size (take k bs) ≡ some m
unfolding frame_size be16
frame_size-take k bs m le fit h =
    ground (arith, length-take_le k bs, get_or-take 0 k bs 0, get_or-take 1 k bs 0)

pub length-after : (m : ℕ) (bs : Bytes) → length (after m bs) ≡ length bs - (2 + m)
length-after m bs = length-drop (2 + m) bs

pub boundary_from-acc :
    (f : ℕ) (bs : Bytes) (off : ℕ) → boundary_from f bs off ≡ off + boundary_from f bs 0
unfolding boundary_from
boundary_from-acc zero bs off = omega arith
boundary_from-acc (suc f) bs off = elim (Option-cases (frame_size bs)) [
  | inl e ↦ rw (e, boundary_from) (omega arith)
  | inr (m, e) ↦
      rw (e, boundary_from)
        (omega (
          arith,
          boundary_from-acc f (after m bs) (off + (2 + m)),
          boundary_from-acc f (after m bs) (0 + (2 + m)),
        ))
]

pub boundary_from-le : (f : ℕ) (bs : Bytes) → boundary_from f bs 0 ≤ length bs
unfolding boundary_from
boundary_from-le zero bs = omega arith
boundary_from-le (suc f) bs = elim (Option-cases (frame_size bs)) [
  | inl e ↦ rw (e, boundary_from) (omega arith)
  | inr (m, e) ↦
      rw (e, boundary_from)
        (omega (
          arith,
          boundary_from-acc f (after m bs) (0 + (2 + m)),
          boundary_from-le f (after m bs),
          length-after m bs,
          frame_size-bound bs m e,
        ))
]

-- The boundary past a first frame.
pub boundary_from-suc :
    (f : ℕ) (bs : Bytes) (m : ℕ)
    → frame_size bs ≡ some m
    → boundary_from (suc f) bs 0 ≡ 2 + m + boundary_from f (after m bs) 0
unfolding boundary_from
boundary_from-suc f bs m e =
    rw (e, boundary_from) (omega (arith, boundary_from-acc f (after m bs) (0 + (2 + m))))

pub boundary_from-none : (f : ℕ) (bs : Bytes) → frame_size bs ≡ none → boundary_from f bs 0 ≡ 0
unfolding boundary_from
boundary_from-none zero bs e = refl
boundary_from-none (suc f) bs e = rw (e, boundary_from)

pub payload-take : (m k : ℕ) (bs : Bytes) → payload m (take (2 + m + k) bs) ≡ payload m bs
payload-take m k bs =
    ap (λ j. payload m (take j bs)) (omega arith)
    ∙ ap (take m) (drop-take_add 2 (m + k) bs)
    ∙ take-take_le m (m + k) (drop 2 bs) (omega arith)

pub payload-append : (m : ℕ) (a b : Bytes) → 2 + m ≤ length a → payload m (a ++ b) ≡ payload m a
payload-append m a b h =
    ap (take m) (drop-append_le 2 a b (omega arith))
    ∙ take-append_le m (drop 2 a) b (omega (arith, length-drop 2 a))

-- Nothing complete is left behind the boundary.
pub boundary_from-rest :
    (f : ℕ) (bs : Bytes) → length bs ≤ f → frame_size (drop (boundary_from f bs 0) bs) ≡ none
unfolding boundary_from
boundary_from-rest zero bs h = elim (Option-cases (frame_size bs)) [
  | inl e ↦ e
  | inr (m, e) ↦ absurd (omega (arith, frame_size-bound bs m e))
]
boundary_from-rest (suc f) bs h = elim (Option-cases (frame_size bs)) [
  | inl e ↦ rw (e, boundary_from) e
  | inr (m, e) ↦
      subst (λ k. frame_size (drop k bs) ≡ none) (sym (boundary_from-suc f bs m e))
        (subst (λ r. frame_size r ≡ none)
          (sym (drop-add (2 + m) (boundary_from f (after m bs) 0) bs))
          (boundary_from-rest f (after m bs)
            (omega (arith, length-after m bs, frame_size-bound bs m e))))
]

-- More fuel than bytes changes nothing.
pub boundary_from-fuel :
    (f g : ℕ) (bs : Bytes)
    → length bs ≤ f
    → length bs ≤ g
    → boundary_from f bs 0 ≡ boundary_from g bs 0
boundary_from-fuel zero g bs h k = elim (Option-cases (frame_size bs)) [
  | inl e ↦ boundary_from-none zero bs e ∙ sym (boundary_from-none g bs e)
  | inr (m, e) ↦ absurd (omega (arith, frame_size-bound bs m e))
]
boundary_from-fuel (suc f) zero bs h k = elim (Option-cases (frame_size bs)) [
  | inl e ↦ boundary_from-none (suc f) bs e ∙ sym (boundary_from-none zero bs e)
  | inr (m, e) ↦ absurd (omega (arith, frame_size-bound bs m e))
]
boundary_from-fuel (suc f) (suc g) bs h k = elim (Option-cases (frame_size bs)) [
  | inl e ↦ boundary_from-none (suc f) bs e ∙ sym (boundary_from-none (suc g) bs e)
  | inr (m, e) ↦ omega (
    arith,
    boundary_from-suc f bs m e,
    boundary_from-suc g bs m e,
    boundary_from-fuel f g (after m bs) (omega (arith, length-after m bs, frame_size-bound bs m e))
        (omega (arith, length-after m bs, frame_size-bound bs m e)),
  )
]

-- With bytes that come later, the boundary moves on from where it was.
pub boundary_from-append :
    (f g : ℕ) (a b : Bytes)
    → length a ≤ f
    → length (a ++ b) ≤ g
    → boundary_from g (a ++ b) 0
      ≡ boundary_from f a 0 + boundary_from g (drop (boundary_from f a 0) a ++ b) 0
unfolding boundary_from
boundary_from-append zero g a b h k = omega arith
boundary_from-append (suc f) zero a b h k = elim (Option-cases (frame_size a)) [
  | inl e ↦ omega (arith, boundary_from-none (suc f) a e)
  | inr (m, e) ↦ absurd (omega (arith, frame_size-bound a m e, length-append a b))
]
boundary_from-append (suc f) (suc g) a b h k = elim (Option-cases (frame_size a)) [
  | inl e ↦ omega (
    arith,
    boundary_from-none (suc f) a e,
    ap (λ n. boundary_from (suc g) (drop n a ++ b) 0) (boundary_from-none (suc f) a e),
  )
  | inr (m, e) ↦
      let fit : 2 + m ≤ length a = (frame_size-bound a m e).1 in
      let left : Bytes = drop (boundary_from f (after m a) 0) (after m a) in
      let rest : drop (boundary_from (suc f) a 0) a ≡ left =
        ap (λ n. drop n a) (boundary_from-suc f a m e)
        ∙ drop-add (2 + m) (boundary_from f (after m a) 0) a in
      let joined : length (after m a ++ b) ≤ g =
        omega (arith, length-append (after m a) b, length-append a b, length-after m a, fit) in
      let left_fits : length (left ++ b) ≤ g = omega (
        arith,
        length-append left b,
        length-append (after m a) b,
        length-drop (boundary_from f (after m a) 0) (after m a),
      ) in
      omega (
        arith,
        boundary_from-suc g (a ++ b) m (frame_size-append a b m e),
        ap (λ r. boundary_from g r 0) (drop-append_le (2 + m) a b fit),
        boundary_from-append f g (after m a) b (omega (arith, length-after m a, fit)) joined,
        boundary_from-suc f a m e,
        boundary_from-fuel g (suc g) (left ++ b) left_fits (omega arith),
        ap (λ r. boundary_from (suc g) (r ++ b) 0) rest,
      )
]

module _ {S : Type 0} (handle : Call → S → S) where
  -- More fuel than bytes changes nothing.
  pub parse_from-fuel :
      (f g : ℕ) (bs : Bytes) (s : S) (c : ℕ)
      → length bs ≤ f
      → length bs ≤ g
      → parse_from handle f bs s c ≡ parse_from handle g bs s c
  unfolding parse_from
  parse_from-fuel zero zero bs s c h k = refl
  parse_from-fuel zero (suc g) bs s c h k = elim (Option-cases (frame_size bs)) [
    | inl e ↦ rw (e, parse_from)
    | inr (m, e) ↦ absurd (omega (arith, frame_size-bound bs m e))
  ]
  parse_from-fuel (suc f) zero bs s c h k = elim (Option-cases (frame_size bs)) [
    | inl e ↦ rw (e, parse_from)
    | inr (m, e) ↦ absurd (omega (arith, frame_size-bound bs m e))
  ]
  parse_from-fuel (suc f) (suc g) bs s c h k = elim (Option-cases (frame_size bs)) [
    | inl e ↦ rw (e, parse_from)
    | inr (m, e) ↦
        rw (e, parse_from)
          (parse_from-fuel f g (after m bs) _ (c + 1)
            (omega (arith, length-after m bs, frame_size-bound bs m e))
            (omega (arith, length-after m bs, frame_size-bound bs m e)))
  ]

  -- The count is added to.
  pub parse_from-acc :
      (f : ℕ) (bs : Bytes) (s : S) (c : ℕ)
      → parse_from handle f bs s c
        ≡ (c + (parse_from handle f bs s 0).0, (parse_from handle f bs s 0).1)
  unfolding parse_from
  parse_from-acc zero bs s c = ap (λ n. (n, s)) (omega arith)
  parse_from-acc (suc f) bs s c = elim (Option-cases (frame_size bs)) [
    | inl e ↦ rw (e, parse_from) (ap (λ n. (n, s)) (omega arith))
    | inr (m, e) ↦
        let s' : S = handle (dispatch (payload m bs)).1 s in
        rw (e, parse_from)
          (ground (
            arith,
            parse_from-acc f (after m bs) s' (c + 1),
            parse_from-acc f (after m bs) s' (0 + 1),
          ))
  ]

  pub parse_from-none :
      (f : ℕ) (bs : Bytes) (s : S) (c : ℕ)
      → frame_size bs ≡ none
      → parse_from handle f bs s c ≡ (c, s)
  unfolding parse_from
  parse_from-none zero bs s c e = refl
  parse_from-none (suc f) bs s c e = rw (e, parse_from)

  pub parse_from-some :
      (f : ℕ) (bs : Bytes) (s : S) (c m : ℕ)
      → frame_size bs ≡ some m
      → parse_from handle (suc f) bs s c
        ≡ parse_from handle f (after m bs) (handle (dispatch (payload m bs)).1 s) (c + 1)
  unfolding parse_from
  parse_from-some f bs s c m e = rw (e, parse_from)

  -- The complete prefix parses as the whole does.
  pub parse_from-take :
      (f : ℕ) (bs : Bytes) (s : S) (c : ℕ)
      → parse_from handle f (take (boundary_from f bs 0) bs) s c ≡ parse_from handle f bs s c
  unfolding parse_from
  parse_from-take zero bs s c = refl
  parse_from-take (suc f) bs s c = elim (Option-cases (frame_size bs)) [
    | inl e ↦
        ap (λ k. parse_from handle (suc f) (take k bs) s c) (boundary_from-none (suc f) bs e)
        ∙ sym (parse_from-none (suc f) bs s c e)
    | inr (m, e) ↦
        let k : ℕ = boundary_from f (after m bs) 0 in
        let split : boundary_from (suc f) bs 0 ≡ 2 + m + k = boundary_from-suc f bs m e in
        let fit : 2 + m + k ≤ length bs = omega (arith, boundary_from-le (suc f) bs, split) in
        let cut : Bytes = take (2 + m + k) bs in
        let whole : payload m cut ≡ payload m bs = payload-take m k bs in
        let rest : after m cut ≡ take k (after m bs) = drop-take_add (2 + m) k bs in
        ap (λ j. parse_from handle (suc f) (take j bs) s c) split
        ∙ parse_from-some f cut s c m (frame_size-take (2 + m + k) bs m (omega arith) fit e)
        ∙ ap₂ (λ p r. parse_from handle f r (handle (dispatch p).1 s) (c + 1)) whole rest
        ∙ parse_from-take f (after m bs) (handle (dispatch (payload m bs)).1 s) (c + 1)
        ∙ sym (parse_from-some f bs s c m e)
  ]

  -- With bytes that come later, the walk goes on from what it left.
  pub parse_from-append :
      (f g : ℕ) (a b : Bytes) (s : S) (c : ℕ)
      → length a ≤ f
      → length (a ++ b) ≤ g
      → parse_from handle g (a ++ b) s c
        ≡ parse_from handle g
            (drop (boundary_from f a 0) a ++ b)
            (parse_from handle f a s c).1
            (parse_from handle f a s c).0
  unfolding parse_from boundary_from
  parse_from-append zero g a b s c h k = refl
  parse_from-append (suc f) zero a b s c h k = elim (Option-cases (frame_size a)) [
    | inl e ↦ sym (
        ap₂ (λ (n : ℕ) (q : ℕ × S). parse_from handle zero (drop n a ++ b) q.1 q.0)
          (boundary_from-none (suc f) a e) (parse_from-none (suc f) a s c e))
    | inr (m, e) ↦ absurd (omega (arith, frame_size-bound a m e, length-append a b))
  ]
  parse_from-append (suc f) (suc g) a b s c h k = elim (Option-cases (frame_size a)) [
    | inl e ↦ sym (
        ap₂ (λ (n : ℕ) (q : ℕ × S). parse_from handle (suc g) (drop n a ++ b) q.1 q.0)
          (boundary_from-none (suc f) a e) (parse_from-none (suc f) a s c e))
    | inr (m, e) ↦
        let s' : S = handle (dispatch (payload m a)).1 s in
        let fit : 2 + m ≤ length a = (frame_size-bound a m e).1 in
        let left : Bytes = drop (boundary_from f (after m a) 0) (after m a) in
        let short : length (after m a) ≤ f = omega (arith, length-after m a, fit) in
        let joined : length (after m a ++ b) ≤ g =
          omega (arith, length-append (after m a) b, length-append a b, length-after m a, fit) in
        let done : ℕ × S = parse_from handle f (after m a) s' (c + 1) in
        let rest : drop (boundary_from (suc f) a 0) a ≡ left =
          ap (λ n. drop n a) (boundary_from-suc f a m e)
          ∙ drop-add (2 + m) (boundary_from f (after m a) 0) a in
        let left_fits : length (left ++ b) ≤ g = omega (
          arith,
          length-append left b,
          length-append (after m a) b,
          length-drop (boundary_from f (after m a) 0) (after m a),
        ) in
        parse_from-some g (a ++ b) s c m (frame_size-append a b m e)
        ∙ ap₂ (λ p r. parse_from handle g r (handle (dispatch p).1 s) (c + 1))
            (payload-append m a b fit) (drop-append_le (2 + m) a b fit)
        ∙ parse_from-append f g (after m a) b s' (c + 1) short joined
        ∙ parse_from-fuel g (suc g) (left ++ b) done.1 done.0 left_fits (omega arith)
        ∙ ap₂ (λ (r : Bytes) (q : ℕ × S). parse_from handle (suc g) (r ++ b) q.1 q.0) (sym rest)
            (sym (parse_from-some f a s c m e))
  ]
