-- ===== src/Exec/Pov/Budget.antt =====
-- `Pov`: the budget and the participation rate over a sequence of prints.
use itch_lob_engine.Base.{
  ◌^◌, ◌*◌, ◌%◌, ◌+◌, ◌≤◌, ◌<◌, ◌≡◌, ◌≢◌, ◌⊎◌, ◌∙◌, ◌∷◌, ◌++◌, ℕ, suc, refl, sym, ap, subst, inl,
  inr, List, [], arith, length, length-append,
}
use itch_lob_engine.Exec.Types.{TradeTick, push, sum_shares, sum_shares-append, max_child_orders}
use itch_lob_engine.Exec.Pov.{PovParams, Pov, make, remaining, slice, child, on_trade_tick}
use itch_lob_engine.Exec.RiskGate.Limits.{product_fits}

unfoldable pub on_ticks : List TradeTick → Pov → Pov
unfolding on_trade_tick
on_ticks [] s = s
on_ticks (t ∷ ts) s = on_ticks ts (on_trade_tick t s)

-- The shares of all prints.
abbrev pub volume : List TradeTick → ℕ
volume [] = 0
volume (t ∷ ts) = t.shares + volume ts

abbrev pub AllTicksFit : List TradeTick → Type 0
AllTicksFit [] = Unit {0}
AllTicksFit (t ∷ ts) = (t.shares < 2 ^ 32) × AllTicksFit ts

-- The state after `n` prints of volume `v`.
pub record Within (n : ℕ) (v : ℕ) (s : Pov) : Type 0 where
  pub budget_fits : s.params.max_shares < 2 ^ 32
  pub rate_fits : s.params.participation_bps < 2 ^ 32
  pub in_budget : s.shares_sent ≤ s.params.max_shares
  pub queued : sum_shares s.queue ≡ s.shares_sent
  pub few : length s.queue ≤ n
  pub in_rate : s.shares_sent * 10_000 ≤ v * s.params.participation_bps

slice-bounds :
    (tick : TradeTick) (s : Pov)
    → tick.shares < 2 ^ 32
    → s.params.max_shares < 2 ^ 32
    → s.params.participation_bps < 2 ^ 32
    → s.shares_sent ≤ s.params.max_shares
    → (s.shares_sent + slice tick s ≤ s.params.max_shares)
      × (slice tick s * 10_000 ≤ tick.shares * s.params.participation_bps)
unfolding slice remaining
slice-bounds tick s ts ms ps le =
    ground (arith, product_fits tick.shares s.params.participation_bps ts ps)

-- A print leaves the strategy as it is, or sends a slice, where the queue has room.
sends_or_not :
    (tick : TradeTick) (s : Pov)
    → length s.queue < max_child_orders
    → (on_trade_tick tick s ≡ s)
      ⊎ (on_trade_tick tick s ≡ record s {
        queue = s.queue ++ child tick (slice tick s) s ∷ [];
        shares_sent = (s.shares_sent + slice tick s) % 2 ^ 32;
      })
unfolding on_trade_tick push
sends_or_not tick s room = ground arith

more : {n v : ℕ} {s : Pov} (x : ℕ) → Within n v s → Within (suc n) (x + v) s
more {n} {v} {s} x w = record {
  budget_fits = w.budget_fits;
  rate_fits = w.rate_fits;
  in_budget = w.in_budget;
  queued = w.queued;
  few = omega (arith, w.few);
  in_rate = grind (arith, w.in_rate);
}

rate_add :
    (x v b a c : ℕ) → a * 10_000 ≤ v * b → c * 10_000 ≤ x * b → (a + c) * 10_000 ≤ (x + v) * b
rate_add x v b a c h k = grind (arith, h, k)

recount : {n m v u : ℕ} {s : Pov} → n ≡ m → v ≡ u → Within n v s → Within m u s
recount {n} {m} {v} {u} {s} e f w = subst (λ k. Within k u s) e (subst (λ k. Within n k s) f w)

sent-Within :
    (tick : TradeTick) (s : Pov) (n : ℕ) (v : ℕ)
    → tick.shares < 2 ^ 32
    → Within n v s
    → Within (suc n) (tick.shares + v) (record s {
      queue = s.queue ++ child tick (slice tick s) s ∷ [];
      shares_sent = (s.shares_sent + slice tick s) % 2 ^ 32;
    })
unfolding child
sent-Within tick s n v fits w =
    let b = slice-bounds tick s fits w.budget_fits w.rate_fits w.in_budget in
    record {
      budget_fits = w.budget_fits;
      rate_fits = w.rate_fits;
      in_budget = ground (arith, b.0, w.budget_fits);
      queued = ground (
        arith,
        b.0,
        w.budget_fits,
        w.queued,
        sum_shares-append s.queue (child tick (slice tick s) s ∷ []),
      );
      few = omega (arith, w.few, length-append s.queue (child tick (slice tick s) s ∷ []));
      in_rate =
          subst (λ k. k * 10_000 ≤ (tick.shares + v) * s.params.participation_bps)
            (ground (arith, b.0, w.budget_fits))
            (rate_add tick.shares v s.params.participation_bps s.shares_sent (slice tick s)
              w.in_rate b.1);
    }

on_trade_tick-Within :
    (tick : TradeTick) (s : Pov) (n : ℕ) (v : ℕ)
    → tick.shares < 2 ^ 32
    → n < max_child_orders
    → Within n v s
    → Within (suc n) (tick.shares + v) (on_trade_tick tick s)
on_trade_tick-Within tick s n v fits room w = elim (sends_or_not tick s (omega (arith, w.few))) [
  | inl same ↦ subst (Within (suc n) (tick.shares + v)) (sym same) (more tick.shares w)
  | inr sent ↦ subst (Within (suc n) (tick.shares + v)) (sym sent) (sent-Within tick s n v fits w)
]

on_ticks-Within :
    (ticks : List TradeTick) (s : Pov) (n v : ℕ)
    → AllTicksFit ticks
    → n + length ticks ≤ max_child_orders
    → Within n v s
    → Within (n + length ticks) (volume ticks + v) (on_ticks ticks s)
unfolding on_ticks
on_ticks-Within [] s n v f room w = recount (omega arith) (omega arith) w
on_ticks-Within (t ∷ ts) s n v (f, fs) room w =
    let rest =
      on_ticks-Within ts (on_trade_tick t s) (suc n) (t.shares + v) fs (omega arith)
        (on_trade_tick-Within t s n v f (omega arith) w) in
    recount (omega arith) (omega arith) rest

on_trade_tick-params : (tick : TradeTick) (s : Pov) → (on_trade_tick tick s).params ≡ s.params
unfolding on_trade_tick
on_trade_tick-params tick s = ground arith

on_ticks-params : (ticks : List TradeTick) (s : Pov) → (on_ticks ticks s).params ≡ s.params
unfolding on_ticks
on_ticks-params [] s = refl
on_ticks-params (t ∷ ts) s = on_ticks-params ts (on_trade_tick t s) ∙ on_trade_tick-params t s

-- A new strategy, its fields and the prints' shares uint32_t, after at most 512 prints: what it has sent is within its budget, is exactly what
-- stands in its queue, and is at most its participation rate of the volume printed; nothing wraps.
pub on_ticks-IsWithin :
    (ticks : List TradeTick) (p : PovParams)
    → AllTicksFit ticks
    → length ticks ≤ max_child_orders
    → p.max_shares < 2 ^ 32
    → p.participation_bps < 2 ^ 32
    → ((on_ticks ticks (make p)).shares_sent ≤ p.max_shares)
      × (sum_shares (on_ticks ticks (make p)).queue ≡ (on_ticks ticks (make p)).shares_sent)
      × ((on_ticks ticks (make p)).shares_sent * 10_000 ≤ volume ticks * p.participation_bps)
on_ticks-IsWithin ticks p f few ms ps =
    let start : Within 0 0 (make p) = record {
      budget_fits = ms;
      rate_fits = ps;
      in_budget = omega arith;
      queued = refl;
      few = omega arith;
      in_rate = omega arith;
    } in
    let w = on_ticks-Within ticks (make p) 0 0 f (omega arith) start in
    let same = on_ticks-params ticks (make p) in
    (
      omega (arith, w.in_budget, ap (λ (q : PovParams). q.max_shares) same),
      w.queued,
      ground (arith, w.in_rate, ap (λ (q : PovParams). q.participation_bps) same),
    )

-- Where the queue is full, the budget is a uint32_t that is not spent and there is no end time, a print that the strategy would act on leaves the queue as it is and
-- still counts its slice as sent: the budget shrinks by shares that no child order carries.
pub on_trade_tick-full :
    (tick : TradeTick) (s : Pov)
    → length s.queue ≡ max_child_orders
    → s.shares_sent < s.params.max_shares
    → s.params.max_shares < 2 ^ 32
    → s.params.end_ts ≡ 0
    → slice tick s ≢ 0
    → ((on_trade_tick tick s).queue ≡ s.queue)
      × ((on_trade_tick tick s).shares_sent ≡ s.shares_sent + slice tick s)
unfolding on_trade_tick push slice remaining
on_trade_tick-full tick s shut left fits endless acts = ground arith
