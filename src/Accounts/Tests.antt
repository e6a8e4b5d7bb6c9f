-- ===== src/Accounts/Tests.antt =====
-- A wallet of 10^18 wei.
use reserve_protocol.Base.{ℕ, suc, ◌^◌, ◌≡◌, ◌⊎◌, true, none, some, [], ◌∷◌}
use reserve_protocol.Base.Int.{pos}
use reserve_protocol.Base.Text.{Dict}
use reserve_protocol.BigNumber.{integers, integers-IsBigNumbers}
use reserve_protocol.Accounts.{Transaction, Wallet, empty_wallet}
use reserve_protocol.Accounts.Emptied.{IsAll, sent_by, empty_wallet-IsAll}
use reserve_protocol.Chain.{Arg, address, Hardhat, World}
use reserve_protocol.Chain.Outcome.{Runs}

abbrev mainnet : Hardhat
mainnet = record {
  Chain = ℕ;
  network_name = "mainnet";
  send = λ n method. some "1";
  hex_to_decimal = λ hex. some "1";
  has_code = λ n a. true;
  deploy = λ c n. none;
  call_text = λ n a method. none;
  call_number = λ n a method. none;
}

abbrev rich : Wallet mainnet
rich = record {
  own = "0xaa";
  balance = λ n. some (pos (10 ^ 18));
  gas_price = λ n. some (pos (10 ^ 9));
  send_transaction = λ tx n. (some tt, suc n);
}

abbrev params : Dict Arg
params = ("recipient", address "0xbb") ∷ []

abbrev world : World ℕ
world = record { files = []; chain = 0 }

empty_wallet-IsAll_example :
    Runs
      (λ u w'.
        (tx : Transaction) × IsAll mainnet rich integers integers-IsBigNumbers params world tx
        × (sent_by mainnet rich integers integers-IsBigNumbers params world tx ≡ (some u, w'.chain))
        × (w'.files ≡ world.files))
      (λ w'.
        (w' ≡ world)
        ⊎ (tx : Transaction) × IsAll mainnet rich integers integers-IsBigNumbers params world tx
          × (w'.chain ≡ (sent_by mainnet rich integers integers-IsBigNumbers params world tx).1)
          × (w'.files ≡ world.files))
      (empty_wallet mainnet rich integers params)
      world
empty_wallet-IsAll_example =
    empty_wallet-IsAll mainnet rich integers integers-IsBigNumbers params world
