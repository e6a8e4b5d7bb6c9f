-- ===== src/Chain.antt =====
-- The Hardhat runtime environment, as the scripts and tasks use it, and the monad of a script.
-- Hardhat, ethers and the contracts behind them are reached over the network: what they answer is
-- the fields of a record, and their documented behaviour is the laws. `none` is a throw.
pub mod Calls
pub mod Outcome
pub mod Steps
pub mod Sent
use reserve_protocol.Base.{
  String, ◌≡◌, Bool, true, false, Option, none, some, List, [], ◌∷◌, if◌then◌else◌,
}
use reserve_protocol.Base.Int.{ℤ}
use reserve_protocol.Base.Text.{Dict, insert, is_empty}
use reserve_protocol.Errors.{Error, Result, ok, err, or_throw}
use reserve_protocol.Config.{IImplementations, IrTokenConfig, IrTokenSetup, IGovParams}
use reserve_protocol.Deploy.Store.{File}

-- An argument of a contract call. The text of a BigNumber is carried as the number.
pub data Arg : Type 0 where
  address : String → Arg
  amount : ℤ → Arg
  bytes32 : String → Arg
  label : String → Arg
  implementations : IImplementations → Arg
  addresses : List String → Arg
  undefined : Arg

-- `(await getContractFactory(contract, { libraries })).deploy(...arguments)`, and `.deployed()`
pub record Creation : Type 0 where
  pub contract : String
  pub libraries : Dict Arg
  pub arguments : List Arg

pub record Hardhat : Type 1 where
  pub Chain : Type 0
  pub network_name : String
  -- `network.provider.send(method)`
  pub send : Chain → String → Option String
  -- `BigNumber.from(hex).toString()`
  pub hex_to_decimal : String → Option String
  -- `provider.getCode(address) != '0x'`
  pub has_code : Chain → String → Bool
  pub deploy : Creation → Chain → Option (String × Chain)
  -- view calls by address and method, with a text or a number for a result
  pub call_text : Chain → String → String → Option String
  pub call_number : Chain → String → String → Option ℤ

-- A deployment that went through left code at the address that it returns, code stays, and the
-- node answers for the same network as before.
pub record IsHardhat (hre : Hardhat) : Type 0 where
  pub deployed :
      (c : Creation) (chain : hre.Chain) (a : String) (chain' : hre.Chain)
      → hre.deploy c chain ≡ some (a, chain')
      → (hre.has_code chain' a ≡ true) × (is_empty a ≡ false)
  pub kept :
      (c : Creation) (chain : hre.Chain) (a : String) (chain' : hre.Chain) (b : String)
      → hre.deploy c chain ≡ some (a, chain')
      → hre.has_code chain b ≡ true
      → hre.has_code chain' b ≡ true
  pub same_network :
      (c : Creation) (chain : hre.Chain) (a : String) (chain' : hre.Chain) (method : String)
      → hre.deploy c chain ≡ some (a, chain')
      → hre.send chain' method ≡ hre.send chain method

-- What a script reads and changes: the files of the repository's folder, and the chain.
pub record World (C : Type 0) : Type 0 where
  pub files : Dict File
  pub chain : C

-- A script: it ends with a result or a throw, and what it wrote stays written.
abbrev pub Script : Type 0 → Type 0 → Type 0
Script C A = World C → Result A × World C

module _ {C : Type 0} where
  unfoldable pub pure : {A : Type 0} → A → Script C A
  pure a w = (ok a, w)

  infixl 5 ◌>>=◌ ◌>>◌
  unfoldable pub ◌>>=◌ : {A B : Type 0} → Script C A → (A → Script C B) → Script C B
  ◌>>=◌ m f w = let (r, w') = m w in elim r [ ok a ↦ f a w' | err e ↦ (err e, w') ]

  unfoldable pub ◌>>◌ : {A B : Type 0} → Script C A → Script C B → Script C B
  m >> k = m >>= λ _. k

  -- a part of a script that changes nothing
  unfoldable pub reads : {A : Type 0} → (World C → Result A) → Script C A
  reads f w = (f w, w)

  -- `fs.writeFileSync(name, JSON.stringify(…))`
  unfoldable pub write_file : String → File → Script C (Unit {0})
  write_file name f w = (ok tt, record w { files = insert name f w.files })

module _ (hre : Hardhat) where
  unfoldable pub deploy : Creation → Script hre.Chain String
  deploy c w = elim (hre.deploy c w.chain) [
    | none ↦ (err (Error.deploy_failed c.contract), w)
    | some (a, chain) ↦ (ok a, record w { chain = chain })
  ]

  -- a call of a view function
  unfoldable pub call_text : String → String → World hre.Chain → Result String
  call_text target method w =
      or_throw (Error.call_failed method) (hre.call_text w.chain target method)

  unfoldable pub call_number : String → String → World hre.Chain → Result ℤ
  call_number target method w =
      or_throw (Error.call_failed method) (hre.call_number w.chain target method)
