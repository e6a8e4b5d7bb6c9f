-- ===== src/Deploy/Tests/Deployed.antt =====
-- A chain on which everything has been deployed, and the state that scripts/deploy.ts leaves on it.
use reserve_protocol.Base.{ℕ, suc, String, refl, true, false, some, [], ◌∷◌}
use text.Mathlib.Text.{◌==◌ as str_eq}
use reserve_protocol.Base.Int.{pos}
use reserve_protocol.Base.Text.{Dict, lookup}
use reserve_protocol.Deploy.Store.{
  IDeployments, IAssetCollDeployments, deployments, asset_coll, rtoken, get_deployment_filename,
  get_asset_coll_deployment_filename,
}
use reserve_protocol.Deploy.Phase1.Progress.{Filled}
use reserve_protocol.Deploy.Phase1.Getters.{complete}
use reserve_protocol.Deploy.Phase3.{fresh_rtoken}
use reserve_protocol.Deploy.Full.Complete.{IsComplete}
use reserve_protocol.Deploy.Tests.{
  local_chain, local_chain-IsHardhat, local_id, first, local_file, collateral_file,
}
use reserve_protocol.Events.{Chai, ContractReceipt}
use reserve_protocol.Chain.{World}
use reserve_protocol.Chain.Calls.{Contracts}

abbrev pub texts : Chai
texts = record {
  Value = String;
  is_null = λ v. false;
  is_big_number = λ v. false;
  equal = str_eq;
  deep_equal = str_eq;
}

abbrev pub governance_args : Dict String
governance_args = ("governance", "0x60") ∷ ("timelock", "0x61") ∷ []

-- Every address is the same, and each transaction has the events of both.
abbrev pub local_receipt : ContractReceipt String String
local_receipt = record {
  events = some (record { event = some "GovernanceCreated"; args = some governance_args } ∷ []);
  logs = "0xc0de" ∷ [];
}

abbrev pub local_contracts : Contracts local_chain
local_contracts = record {
  chai = texts;
  Log = String;
  parse_log = λ l. some (record { name = "RTokenCreated"; args = some (("main", l) ∷ []) });
  address_of = λ v. some v;
  to_asset = λ n registry token. some "0xc0de";
  paused = λ n a. some true;
  price = λ n a. some (false, pos 8);
  deploy_rtoken = λ target config setup n. (some local_receipt, suc n);
  setup_governance = λ target setup n. (some local_receipt, suc n);
}

abbrev pub all_deployed : IDeployments
all_deployed = record first {
  rewardable_lib = "0xc0de";
  oracle_lib = "0xc0de";
  trading_lib = "0xc0de";
  permit_lib = "0xc0de";
  facade_read = "0xc0de";
  facade_write_lib = "0xc0de";
  facade_write = "0xc0de";
  facade_act = "0xc0de";
  deployer = "0xc0de";
  rsr_asset = "0xc0de";
  implementations = record {
    main = "0xc0de";
    trade = "0xc0de";
    components = record {
      asset_registry = "0xc0de";
      backing_manager = "0xc0de";
      basket_handler = "0xc0de";
      broker = "0xc0de";
      distributor = "0xc0de";
      furnace = "0xc0de";
      rsr_trader = "0xc0de";
      rtoken_trader = "0xc0de";
      rtoken = "0xc0de";
      st_rsr = "0xc0de";
    };
  };
}

abbrev pub all_listed : IAssetCollDeployments
all_listed = record {
  assets = ("stkAAVE", "0xc0de") ∷ ("COMP", "0xc0de") ∷ [];
  collateral =
      ("DAI", "0xc0de")
      ∷ ("USDC", "0xc0de")
      ∷ ("USDT", "0xc0de")
      ∷ ("USDP", "0xc0de")
      ∷ ("TUSD", "0xc0de")
      ∷ ("BUSD", "0xc0de")
      ∷ ("aDAI", "0xc0de")
      ∷ ("aUSDC", "0xc0de")
      ∷ ("aUSDT", "0xc0de")
      ∷ ("aBUSD", "0xc0de")
      ∷ ("aUSDP", "0xc0de")
      ∷ ("cDAI", "0xc0de")
      ∷ ("cUSDC", "0xc0de")
      ∷ ("cUSDT", "0xc0de")
      ∷ ("cUSDP", "0xc0de")
      ∷ ("cWBTC", "0xc0de")
      ∷ ("cETH", "0xc0de")
      ∷ ("WBTC", "0xc0de")
      ∷ ("WETH", "0xc0de")
      ∷ ("EURT", "0xc0de")
      ∷ [];
}

abbrev pub rtoken_local_file : String
rtoken_local_file = "./scripts/addresses/31337-RTKN-tmp-deployments.json"

-- The state after scripts/deploy.ts, and the one with the file of the RToken.
abbrev pub deployed : World ℕ
deployed = record {
  files = (local_file, deployments all_deployed) ∷ (collateral_file, asset_coll all_listed) ∷ [];
  chain = 4;
}

abbrev pub tokens : World ℕ
tokens = record {
  files =
      (local_file, deployments all_deployed)
      ∷ (collateral_file, asset_coll all_listed)
      ∷ (rtoken_local_file, rtoken (fresh_rtoken "0xc0de"))
      ∷ [];
  chain = 4;
}

pub deployed-Filled : Filled local_chain complete all_deployed deployed
deployed-Filled = (
  (refl, refl),
  (
    (refl, refl),
    (
      (refl, refl),
      (
        (refl, refl),
        (
          (refl, refl),
          (
            (refl, refl),
            (
              (refl, refl),
              (
                (refl, refl),
                (
                  (refl, refl),
                  (
                    (refl, refl),
                    (
                      (refl, refl),
                      (
                        (refl, refl),
                        (
                          (refl, refl),
                          (
                            (refl, refl),
                            (
                              (refl, refl),
                              (
                                (refl, refl),
                                (
                                  (refl, refl),
                                  (
                                    (refl, refl),
                                    (
                                      (refl, refl),
                                      (
                                        (refl, refl),
                                        (
                                          (refl, refl),
                                          (
                                            (refl, refl),
                                            ((refl, refl), ((refl, refl), ((refl, refl), tt))),
                                          ),
                                        ),
                                      ),
                                    ),
                                  ),
                                ),
                              ),
                            ),
                          ),
                        ),
                      ),
                    ),
                  ),
                ),
              ),
            ),
          ),
        ),
      ),
    ),
  ),
)

unfoldable pub deployed-IsComplete :
    IsComplete local_chain local_chain-IsHardhat deployed "31337" (local_id deployed) deployed
unfolding lookup get_deployment_filename get_asset_coll_deployment_filename
deployed-IsComplete = record {
  first = all_deployed;
  filled = deployed-Filled;
  written = refl;
  second = all_listed;
  listed = (
    ("0xc0de", refl, (refl, refl)),
    (
      ("0xc0de", refl, (refl, refl)),
      (
        ("0xc0de", refl, (refl, refl)),
        (
          ("0xc0de", refl, (refl, refl)),
          (
            ("0xc0de", refl, (refl, refl)),
            (
              ("0xc0de", refl, (refl, refl)),
              (
                ("0xc0de", refl, (refl, refl)),
                (
                  ("0xc0de", refl, (refl, refl)),
                  (
                    ("0xc0de", refl, (refl, refl)),
                    (
                      ("0xc0de", refl, (refl, refl)),
                      (
                        ("0xc0de", refl, (refl, refl)),
                        (
                          ("0xc0de", refl, (refl, refl)),
                          (
                            ("0xc0de", refl, (refl, refl)),
                            (
                              ("0xc0de", refl, (refl, refl)),
                              (
                                ("0xc0de", refl, (refl, refl)),
                                (
                                  ("0xc0de", refl, (refl, refl)),
                                  (
                                    ("0xc0de", refl, (refl, refl)),
                                    (
                                      ("0xc0de", refl, (refl, refl)),
                                      (
                                        ("0xc0de", refl, (refl, refl)),
                                        (("0xc0de", refl, (refl, refl)), tt),
                                      ),
                                    ),
                                  ),
                                ),
                              ),
                            ),
                          ),
                        ),
                      ),
                    ),
                  ),
                ),
              ),
            ),
          ),
        ),
      ),
    ),
  );
  held = refl;
  same_chain = local_id deployed;
  untouched = λ n ne₁ ne₂. refl;
}
