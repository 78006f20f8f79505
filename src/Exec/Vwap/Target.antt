-- ===== src/Exec/Vwap/Target.antt =====
-- `Vwap`: what a print brings the shares sent to, and the end of the window.
use itch_lob_engine.Base.{
  ◌^◌, ◌*◌, ◌/◌, ◌%◌, ◌-◌, ◌+◌, ◌≤◌, ◌<◌, ◌≡◌, ◌||◌, ◌∙◌, ◌∷◌, ◌++◌, if◌then◌else◌, ℕ, min, max,
  sym, ap, inl, inr, Bool, false, [], arith, ltb, leb, length, Bool-cases,
}
use native.Mathlib.Nat.{mul-div_cancel}
use itch_lob_engine.Exec.Types.{
  ChildOrder, TradeTick, push, sum_shares, sum_shares-append, max_child_orders,
}
use itch_lob_engine.Exec.Vwap.{
  Vwap, buckets, curve_scale, done, bucket_position, cumulative_weight, curve_fraction,
  target_shares, child, send, on_trade_tick,
}

pub record IsWithin (s : Vwap) : Type 0 where
  pub window_ok : s.params.start_ts < s.params.end_ts
  pub total_fits : s.params.total_shares < 2 ^ 32
  pub in_total : s.shares_sent ≤ s.params.total_shares
  pub queued : sum_shares s.queue ≡ s.shares_sent

-- The last of the branches of a print.
falls_through :
    (a b c : Bool) (x y z : Vwap)
    → a ≡ false
    → b ≡ false
    → c ≡ false
    → (if a then x else if b then y else if c then y else z) ≡ z
falls_through a b c x y z ha hb hc = rw (ha, hb, hc)

module _ (rounded : ℕ → ℕ) where
  target_shares-le : (now : ℕ) (s : Vwap) → target_shares rounded now s ≤ s.params.total_shares
  unfolding target_shares
  target_shares-le now s = ground arith

  send-room :
      (tick : TradeTick) (target : ℕ) (s : Vwap)
      → IsWithin s
      → s.shares_sent < target
      → target ≤ s.params.total_shares
      → length s.queue < max_child_orders
      → send rounded tick target s ≡ record s {
        queue = s.queue ++ child rounded tick (target - s.shares_sent) s ∷ [];
        shares_sent = target;
      }
  unfolding send push
  send-room tick target s w less le room = let fits = w.total_fits in ground (arith, fits)

  seen-IsWithin :
      (tick : TradeTick) (s : Vwap)
      → IsWithin s
      → IsWithin (record s { market_shares_seen = (s.market_shares_seen + tick.shares) % 2 ^ 32 })
  seen-IsWithin tick s w = record {
    window_ok = w.window_ok;
    total_fits = w.total_fits;
    in_total = w.in_total;
    queued = w.queued;
  }

  in_window :
      (tick : TradeTick) (s : Vwap)
      → s.params.start_ts ≤ tick.ts
      → tick.ts ≤ s.params.end_ts
      → (ltb tick.ts s.params.start_ts || ltb s.params.end_ts tick.ts) ≡ false
  in_window tick s a b = ground arith

  not_done :
      (tick : TradeTick) (s : Vwap)
      → s.shares_sent < target_shares rounded tick.ts s
      → done s ≡ false
  unfolding done
  not_done tick s less = let le = target_shares-le tick.ts s in ground (arith, le)

  not_ahead : (x y : ℕ) → y < x → leb x y ≡ false
  not_ahead x y less = ground arith

  on_trade_tick-behind :
      (tick : TradeTick) (s : Vwap)
      → s.params.start_ts ≤ tick.ts
      → tick.ts ≤ s.params.end_ts
      → s.shares_sent < target_shares rounded tick.ts s
      → on_trade_tick rounded tick s
        ≡ send rounded tick
            (target_shares rounded tick.ts s)
            (record s { market_shares_seen = (s.market_shares_seen + tick.shares) % 2 ^ 32 })
  unfolding on_trade_tick done
  on_trade_tick-behind tick s a b less =
      falls_through _ _ _ _ _ _ (in_window tick s a b) (not_done tick s less)
        (not_ahead (target_shares rounded tick.ts s) s.shares_sent less)

  on_trade_tick-ahead :
      (tick : TradeTick) (s : Vwap)
      → target_shares rounded tick.ts s ≤ s.shares_sent
      → ((on_trade_tick rounded tick s).shares_sent ≡ s.shares_sent)
        × ((on_trade_tick rounded tick s).queue ≡ s.queue)
  unfolding on_trade_tick
  on_trade_tick-ahead tick s le = ground arith

  sends_all :
      (tick : TradeTick) (s : Vwap)
      → IsWithin s
      → s.params.start_ts ≤ tick.ts
      → tick.ts ≤ s.params.end_ts
      → s.shares_sent < target_shares rounded tick.ts s
      → length s.queue < max_child_orders
      → ((on_trade_tick rounded tick s).shares_sent
          ≡ max s.shares_sent (target_shares rounded tick.ts s))
        × ((on_trade_tick rounded tick s).shares_sent ≤ s.params.total_shares)
        × (sum_shares (on_trade_tick rounded tick s).queue
            ≡ (on_trade_tick rounded tick s).shares_sent)
  unfolding child
  sends_all tick s w a b less room =
      let now : Vwap = record s {
        market_shares_seen = (s.market_shares_seen + tick.shares) % 2 ^ 32;
      } in
      let target : ℕ = target_shares rounded tick.ts s in
      let sent =
        on_trade_tick-behind tick s a b less
        ∙ send-room tick target now (seen-IsWithin tick s w) less (target_shares-le tick.ts s)
            room in
      let o : ChildOrder = child rounded tick (target - s.shares_sent) now in
      (
        omega (arith, ap (λ (v : Vwap). v.shares_sent) sent, less),
        omega (arith, ap (λ (v : Vwap). v.shares_sent) sent, target_shares-le tick.ts s),
        omega (
          arith,
          ap (λ (v : Vwap). sum_shares v.queue) sent,
          ap (λ (v : Vwap). v.shares_sent) sent,
          sum_shares-append s.queue (o ∷ []),
          w.queued,
          less,
        ),
      )

  -- A print within the window, where the queue has room and holds what has been sent: what has been sent is brought up to the
  -- curve's target at that moment if it is behind it, and never beyond the parent's total; what the
  -- queue holds grows by exactly as much.
  pub on_trade_tick-reaches :
      (tick : TradeTick) (s : Vwap)
      → IsWithin s
      → s.params.start_ts ≤ tick.ts
      → tick.ts ≤ s.params.end_ts
      → length s.queue < max_child_orders
      → ((on_trade_tick rounded tick s).shares_sent
          ≡ max s.shares_sent (target_shares rounded tick.ts s))
        × ((on_trade_tick rounded tick s).shares_sent ≤ s.params.total_shares)
        × (sum_shares (on_trade_tick rounded tick s).queue
            ≡ (on_trade_tick rounded tick s).shares_sent)
  on_trade_tick-reaches tick s w a b room =
      elim (Bool-cases (leb (target_shares rounded tick.ts s) s.shares_sent)) [
        | inl le ↦
            let same = on_trade_tick-ahead tick s (ground arith) in
            (
              ground (arith, same.0),
              ground (arith, same.0, w.in_total),
              ap sum_shares same.1 ∙ w.queued ∙ sym same.0,
            )
        | inr less ↦ sends_all tick s w a b (ground arith) room
      ]

  bucket_position-end : (span : ℕ) → bucket_position span span ≡ (buckets - 1, span)
  unfolding bucket_position
  bucket_position-end span = ground arith

  scaled : (w span : ℕ) → 0 < span → w * span / span ≡ w
  scaled w span pos = mul-div_cancel w pos

  curve_fraction-end :
      (span : ℕ)
      → 0 < span
      → rounded 11 ≤ curve_scale
      → curve_fraction rounded 12 span span ≡ curve_scale
  unfolding curve_fraction cumulative_weight
  curve_fraction-end span pos le =
      ground (arith, scaled ((curve_scale + 2 ^ 64 - rounded 11) % 2 ^ 64) span pos)

  whole : (n : ℕ) → min n (n * curve_scale / curve_scale) ≡ n
  whole n = ground arith

  -- At the end of the window the target is the whole order.
  target_shares-end :
      (s : Vwap)
      → s.params.start_ts < s.params.end_ts
      → rounded 11 ≤ curve_scale
      → target_shares rounded s.params.end_ts s ≡ s.params.total_shares
  unfolding target_shares
  target_shares-end s lt le =
      let span : ℕ = s.params.end_ts - s.params.start_ts in
      ap
        (λ (q : ℕ × ℕ).
          min s.params.total_shares
            (s.params.total_shares * curve_fraction rounded q.0 q.1 span / curve_scale))
        (bucket_position-end span)
      ∙ ap (λ (k : ℕ). min s.params.total_shares (s.params.total_shares * k / curve_scale))
          (curve_fraction-end span (omega arith) le)
      ∙ whole s.params.total_shares

  -- A print at the very end of the window, where the queue has room and holds what has been sent, completes the order: all shares
  -- of the parent are in the queue. The hypothesis on the curve is that its last-but-one entry is at most
  -- its scale.
  pub on_trade_tick-completes :
      (tick : TradeTick) (s : Vwap)
      → IsWithin s
      → rounded 11 ≤ curve_scale
      → tick.ts ≡ s.params.end_ts
      → length s.queue < max_child_orders
      → (sum_shares (on_trade_tick rounded tick s).queue ≡ s.params.total_shares)
        × ((on_trade_tick rounded tick s).shares_sent ≡ s.params.total_shares)
  on_trade_tick-completes tick s w le e room =
      let r = on_trade_tick-reaches tick s w (omega (arith, w.window_ok)) (omega arith) room in
      let t = ap (λ k. target_shares rounded k s) e ∙ target_shares-end s w.window_ok le in
      (ground (arith, r.0, r.2, t, w.in_total), ground (arith, r.0, t, w.in_total))
