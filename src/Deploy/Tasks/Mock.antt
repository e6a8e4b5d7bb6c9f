-- ===== src/Deploy/Tasks/Mock.antt =====
-- The tasks under tasks/deployment/mock, which deploy stand-ins for tokens, feeds and a lending pool.
use reserve_protocol.Base.{String, [], ◌∷◌}
use reserve_protocol.Base.Text.{Dict}
use reserve_protocol.Deploy.Prepare.{zero_address}
use reserve_protocol.Deploy.Tasks.{start_task, deploy_with}
use reserve_protocol.Chain.{Arg, address, Hardhat, Script, ◌>>◌, reads}

module _ (hre : Hardhat) where
  -- a token with a name and a symbol
  unfoldable pub deploy_mock_named : String → Dict Arg → Script hre.Chain String
  deploy_mock_named contract params = do
    reads (start_task hre ("name" ∷ "symbol" ∷ []) params)
    deploy_with hre contract [] params ("name" ∷ "symbol" ∷ []) []

  unfoldable pub deploy_mock_erc20 : Dict Arg → Script hre.Chain String
  unfolding deploy_mock_named
  deploy_mock_erc20 params = deploy_mock_named "ERC20Mock" params

  unfoldable pub deploy_mock_usdc : Dict Arg → Script hre.Chain String
  unfolding deploy_mock_named
  deploy_mock_usdc params = deploy_mock_named "USDCMock" params

  unfoldable pub deploy_mock_wbtc : Dict Arg → Script hre.Chain String
  unfolding deploy_mock_named
  deploy_mock_wbtc params = deploy_mock_named "WBTCMock" params

  -- a token on top of another one
  unfoldable pub deploy_mock_wrapped : String → Dict Arg → Script hre.Chain String
  deploy_mock_wrapped contract params = do
    reads (start_task hre ("name" ∷ "symbol" ∷ "erc20" ∷ []) params)
    deploy_with hre contract [] params ("name" ∷ "symbol" ∷ "erc20" ∷ []) []

  unfoldable pub deploy_mock_atoken : Dict Arg → Script hre.Chain String
  unfolding deploy_mock_wrapped
  deploy_mock_atoken params = deploy_mock_wrapped "ATokenMock" params

  unfoldable pub deploy_mock_ctoken : Dict Arg → Script hre.Chain String
  unfolding deploy_mock_wrapped
  deploy_mock_ctoken params = deploy_mock_wrapped "CTokenMock" params

  unfoldable pub deploy_mock_oracle : Dict Arg → Script hre.Chain String
  deploy_mock_oracle params = do
    reads (start_task hre ("decimals" ∷ "answer" ∷ []) params)
    deploy_with hre "MockV3Aggregator" [] params ("decimals" ∷ "answer" ∷ []) []

  unfoldable pub deploy_mock_aave : Dict Arg → Script hre.Chain String
  deploy_mock_aave params = do
    reads (start_task hre [] params)
    deploy_with hre "AaveLendingPoolMock" [] params [] (address zero_address ∷ [])
