-- ===== src/Config/Laws.antt =====
-- What the configuration tables hold.
use reserve_protocol.Base.{ℕ, ◌*◌, ◌^◌, String, ◌≡◌, refl, ◌∙◌, false, Option, some, [], ◌∷◌}
use reserve_protocol.Base.Int.{ℤ, pos, ◌+ℤ◌, ◌-ℤ◌, ◌*ℤ◌, tdiv}
use reserve_protocol.Base.Text.{Dict, codes}
use reserve_protocol.BigNumber.{
  digits_value, power, BigNumbers, IsBigNumbers, integers, integers-IsBigNumbers,
}
use reserve_protocol.Numbers.{scale_decimals}
use reserve_protocol.Numbers.Parse.{
  match_groups, scan_digits, span_digits, scan_fraction, scan_exponent, parse_scientific, text,
  whole, bn, fp,
}
use reserve_protocol.Numbers.Parse.Value.{has_plus, parse_scientific_agree}
use reserve_protocol.Config.{IConfig}
use reserve_protocol.Config.RToken.{
  IrToken, params, rtkn, rtoken_config, rtkn_mainnet, rtkn_localhost, rtkn_goerli,
}

module _ (big : BigNumbers) (laws : IsBigNumbers big) where
  pub bn-text :
      (s : String)
      → has_plus (match_groups (codes s)) ≡ false
      → bn big (text (codes s)) ≡ bn integers (text (codes s))
  unfolding bn
  bn-text s h = parse_scientific_agree big integers laws integers-IsBigNumbers (codes s) (pos 0) h

  pub fp-text :
      (s : String)
      → has_plus (match_groups (codes s)) ≡ false
      → fp big (text (codes s)) ≡ fp integers (text (codes s))
  unfolding fp
  fp-text s h =
      parse_scientific_agree big integers laws integers-IsBigNumbers (codes s) (pos scale_decimals)
        h

  bn-whole : (x : ℤ) → bn big (whole x) ≡ bn integers (whole x)
  unfolding bn
  bn-whole x = refl

  params-reduce :
      (s : String) → has_plus (match_groups (codes s)) ≡ false → params big s ≡ params integers s
  unfolding params match_groups scan_digits span_digits scan_fraction scan_exponent
  params-reduce s h = rw (
    fp-text "1e4" refl,
    fp-text "1e6" refl,
    bn-whole (pos 40),
    bn-whole (pos 60),
    bn-text "86400" refl,
    fp-text "0.007701635339554948" refl,
    bn-text "1209600" refl,
    bn-text s h,
    bn-text "900" refl,
    fp-text "0.0001" refl,
    fp-text "0.01" refl,
    bn-text "259200" refl,
    bn-text "2592000" refl,
    fp-text "0.00025" refl,
    fp-text "0.05" refl,
  )

  rtkn-reduce :
      (s : String) (delay period : ℕ) (timelock timelock' : Option ℤ)
      → has_plus (match_groups (codes s)) ≡ false
      → timelock ≡ timelock'
      → rtkn big s delay period timelock ≡ rtkn integers s delay period timelock'
  unfolding rtkn bn
  rtkn-reduce s delay period timelock timelock' h e = rw (params-reduce s h, e)

  rtoken_config-reduce : rtoken_config big ≡ rtoken_config integers
  unfolding rtoken_config rtkn_mainnet rtkn_localhost rtkn_goerli bn match_groups scan_digits
      span_digits scan_fraction scan_exponent
  rtoken_config-reduce = rw (
    rtkn-reduce "14400" 7200 14400 (big.pow (pos 2) (pos 47)) (integers.pow (pos 2) (pos 47)) refl
        (laws.pow_law 2 (pos 47)),
    rtkn-reduce "14400" 7200 14400 (some (pos 345_600)) (some (pos 345_600)) refl refl,
    rtkn-reduce "0" 5 100 (some (pos 1)) (some (pos 1)) refl refl,
  )

-- The parameters as numbers: amounts in 18 decimals, times in seconds.
abbrev published_params : ℕ → IConfig
published_params trading_delay = record {
  dist = record { rtoken_dist = pos 40; rsr_dist = pos 60 };
  min_trade_volume = pos (10_000 * 10 ^ 18);
  rtoken_max_trade_volume = pos (1_000_000 * 10 ^ 18);
  short_freeze = pos 259_200;
  long_freeze = pos 2_592_000;
  reward_period = pos 86_400;
  reward_ratio = pos 7_701_635_339_554_948;
  unstaking_delay = pos 1_209_600;
  trading_delay = pos trading_delay;
  auction_length = pos 900;
  backing_buffer = pos (10 ^ 14);
  max_trade_slippage = pos (10 ^ 16);
  issuance_rate = pos (25 * 10 ^ 13);
  scaling_redemption_rate = pos (5 * 10 ^ 16);
  redemption_rate_floor = pos (1_000_000 * 10 ^ 18);
}

abbrev pub published_token : ℕ → ℕ → ℕ → ℕ → IrToken
published_token trading_delay delay period timelock = record {
  config = record {
    name = "RToken";
    symbol = "RTKN";
    mandate = "mandate";
    params = published_params trading_delay;
  };
  gov = record {
    voting_delay = pos delay;
    voting_period = pos period;
    proposal_threshold_as_micro_percent = pos 50_000;
    quorum_percent = pos 10;
    timelock_delay = pos timelock;
  };
}

abbrev pub published : Dict (Dict IrToken)
published =
    ("1", ("RTKN", published_token 14_400 7200 14_400 (2 ^ 47)) ∷ [])
    ∷ ("31337", ("RTKN", published_token 14_400 7200 14_400 345_600) ∷ [])
    ∷ ("5", ("RTKN", published_token 0 5 100 1) ∷ [])
    ∷ []

rtoken_config-integers : rtoken_config integers ≡ some published
unfolding rtoken_config bn fp match_groups scan_digits span_digits scan_fraction scan_exponent
    parse_scientific digits_value power ◌+ℤ◌ ◌-ℤ◌ ◌*ℤ◌ tdiv params
rtoken_config-integers = refl

-- With any BigNumber implementation that meets the documented laws the module loads, and its table
-- holds the published numbers.
pub rtoken_config-published :
    (big : BigNumbers) (laws : IsBigNumbers big) → rtoken_config big ≡ some published
rtoken_config-published big laws = rtoken_config-reduce big laws ∙ rtoken_config-integers
