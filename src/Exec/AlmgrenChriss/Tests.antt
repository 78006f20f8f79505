-- ===== src/Exec/AlmgrenChriss/Tests.antt =====
-- Five shares over ten bins without risk aversion: half a share for each bin, which `std::llround`
-- rounds to one.
use itch_lob_engine.Base.{
  ◌≡◌, ◌∷◌, ◌++◌, ℕ, max, refl, Bool, true, false, some, [], arith, replicate,
}
use itch_lob_engine.Book.Types.{sell}
use itch_lob_engine.Exec.Types.{market}
use itch_lob_engine.Exec.Twap
use itch_lob_engine.Exec.AlmgrenChriss.{AlmgrenChrissParams, AlmgrenChriss, make, advance}
use itch_lob_engine.Exec.AlmgrenChriss.Schedule.{sum, before_last, make-sum}
use itch_lob_engine.Exec.AlmgrenChriss.Advance.{as_twap, advance-as_twap}

-- The doubles of the parameters, by name.
data Double : Type 0 where
  nought one : Double

abbrev negative : Double → Bool
negative _ = false

abbrev not_positive : Double → Bool
not_positive nought = true
not_positive one = false

abbrev half_up : AlmgrenChrissParams Double → ℕ → ℕ
half_up _ _ = 1

abbrev five_shares : AlmgrenChrissParams Double
five_shares = record {
  side = sell;
  total_shares = 5;
  start_ts = 100;
  end_ts = 200;
  bin_ns = 10;
  risk_aversion = nought;
  volatility = nought;
  impact_coefficient = one;
  child_type = market;
  limit_price = 0;
}

abbrev nine_shares : AlmgrenChriss Double
nine_shares = record {
  params = five_shares;
  schedule = replicate 9 1 ++ 0 ∷ [];
  bin_count = 10;
  next_bin = 0;
  queue = [];
}

nine_shares_made : make negative not_positive half_up five_shares ≡ some nine_shares
unfolding make
nine_shares_made = refl

make-sum_example :
    sum nine_shares.schedule ≡ max 5 (before_last negative not_positive half_up five_shares)
make-sum_example =
    make-sum negative not_positive half_up five_shares nine_shares (λ i. omega arith) (omega arith)
      nine_shares_made

advance-as_twap_example :
    ((advance 130 nine_shares).0 ≡ (Twap.advance 130 (as_twap nine_shares)).0)
    × (as_twap (advance 130 nine_shares).1 ≡ (Twap.advance 130 (as_twap nine_shares)).1)
advance-as_twap_example = advance-as_twap 130 nine_shares
