-- ===== src/Lib.antt =====
-- A verification development for the TypeScript part of the Reserve protocol: the number helpers and
-- the configuration tables under common/, and the deployment scripts under scripts/ with the Hardhat
-- tasks under tasks/ that they run.
--
-- The parts, and how they work together:
--   common/numbers.ts turns texts and numbers into BigNumbers (bn, fp) and rounds them.
--   common/configuration.ts holds the addresses of each network, and
--   scripts/deployment/phase3-rtoken/rTokenConfig.ts the parameters of the RTokens, written with bn
--   and fp.
--   scripts/deploy.ts runs the scripts of scripts/deployment/phase1-common in order. Each opens the
--   deployment file of its chain (scripts/deployment/common.ts), tests what the script before it
--   left (scripts/deployment/utils.ts, common/blockchain-utils.ts), deploys contracts, and writes
--   the file. A script that throws ends the run.
--   The scripts of phase3-rtoken, which are run by hand, deploy an RToken and its governance through the
--   FacadeWrite contract, and find the new addresses in the events of the receipts (common/events.ts).
--   scripts/confirm.ts checks prices and delays of what was deployed, and scripts/verify_etherscan.ts
--   sends the sources to Etherscan.
--
-- The files:
--   Base, Base.Tests, Base.Int, Base.Text: shared names, Boolean tests, integers, objects with text
--     keys.
--   BigNumber: the BigNumber class of ethers as a record of operations, its documented behaviour as a
--     record of laws, and exact integers as a record that meets them.
--   Numbers: div, divFloor, divCeil, near, fpFloor, fpRound, fpCeil, pow10, toBNDecimals.
--     Numbers.Division and Numbers.Rounding hold their laws.
--   Numbers.Parse: _parseScientific, bn and fp, with the regular expression as a scanner.
--     Numbers.Parse.Grammar is about the scanner, Numbers.Parse.Truncation and Value about the number
--     returned.
--   Errors: the errors thrown, and results.
--   Config, Config.Networks, Config.RToken: the interfaces, the network table and the RToken table.
--     Config.Laws and Config.Limits are about what the tables hold.
--   Chain: the Hardhat runtime environment as a record, its laws, and the monad of a script: the
--     state is the files and the chain, and what was written before a throw stays written.
--     Chain.Outcome has the rules by which a script is followed step by step.
--   Deploy.Store: the deployment files. Deploy.Guards: the tests of the scripts, with
--     Deploy.Guards.Valid for what they accept. Deploy.Tasks: the asset and collateral tasks.
--   Deploy.Prepare and Deploy.Phase1: the scripts of phase 1, first what they test, then what they
--     deploy and write. Deploy.Phase1.Progress, Getters, Implementations, Opening, Scripts, Setup and
--     Pipeline follow the deployment file through the scripts.
--   Deploy.Phase2, Deploy.Phase2.Terms and Deploy.Phase2.Collateral: the scripts of
--     scripts/deployment/phase2-assets. A block of 2_deploy_collateral.ts is a task run with its
--     parameters and one of the three ways in which the code keeps the address.
--     Deploy.Phase2.Progress, Blocks, Listing, Collected and Lag follow the file through the blocks.
--   Deploy.Full: scripts/deploy.ts. Deploy.Full.Onward and Complete compose the two phases,
--     and Deploy.Full.Again runs them once more.
--   Events: common/events.ts. Events.Search, Receipt, Indirect and Emitted are about what is found.
--   Chain.Calls: the contracts of an RToken, as a record of their views and transactions. Chain.Steps
--     has the equations of a script whose first part is known to end.
--   Deploy.Phase3 and Deploy.Phase3.Scripts: scripts/deployment/phase3-rtoken, first what the scripts
--     test, then the transactions and what is recorded. Deploy.Phase3.Checks, Weights and Prepared are
--     about the tests, Sent about the transactions, Started and Followed about one script after another.
--   Confirm: scripts/confirm.ts and scripts/confirmation, as reads of the chain. Confirm.Assets,
--     Components and Missing are about what is accepted.
--   Verify, Verify.Requests, Verify.Collateral and Verify.Scripts: verifyContract of
--     scripts/deployment/utils.ts, and the requests of scripts/verification, which
--     scripts/verify_etherscan.ts sends in order. Verify.Environment: scripts/check_env.ts. Verify.Quiet
--     is about what is sent, Verify.Deployers, Arguments and Wrapper
--     compare them with the deployments.
--   Accounts: the tasks empty-wallet, mint-tokens and create-deployer-registry; Accounts.Emptied is about
--     the first. Deploy.Tasks.Mock: the tasks of tasks/deployment/mock. Numbers.Short: shortString.
--   The modules called Tests hold concrete runs.
--
-- How the code is carried over: a BigNumber is the integer that it holds; a throw is none in Numbers
-- and an error elsewhere; a text that is scanned is the list of its code points; undefined is none; a
-- chain id is its decimal text. A file holds one of the three objects or a text that JSON refuses. The
-- scanner and the dictionaries are structural recursions, so no fuel is used.
--
-- Not under the repository and so parameters: ethers' BigNumber (BigNumbers), and Hardhat with the
-- node and the contracts behind it (Hardhat, Contracts), the assertions of chai (Chai), and Etherscan
-- with its plug-in (Etherscan), the signer and the tokens (Wallet, Tokens, Account), and the printing of
-- numbers (Printer). The laws of Hardhat say that a deployment that went
-- through leaves code at a non-empty address, that code stays, and that the node goes on answering for
-- the same network.
--
-- Not modelled: console output, connecting a signer, waiting between requests, a node that fails to
-- answer getCode (isValidContract would throw), the deprecated tasks, the
-- Solidity contracts, the test suites and the tools of the repository. The manifest beside this
-- development lists each part that is left out.
pub mod Accounts
pub mod Base
pub mod BigNumber
pub mod Chain
pub mod Config
pub mod Confirm
pub mod Deploy
pub mod Errors
pub mod Events
pub mod Numbers
pub mod Verify
