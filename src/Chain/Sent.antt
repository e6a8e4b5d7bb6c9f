-- ===== src/Chain/Sent.antt =====
-- What a transaction leaves, whether it goes through or not.
use reserve_protocol.Base.{String, ◌≡◌, refl, sym, ap, Option, none, some}
use reserve_protocol.Base.Text.{Dict}
use reserve_protocol.Errors.{Error, or_throw}
use reserve_protocol.Deploy.Store.{File}
use reserve_protocol.Chain.{Hardhat, World}
use reserve_protocol.Chain.Calls.{transact}
use reserve_protocol.Chain.Outcome.{Outcome, Runs}

module _ (hre : Hardhat) where
  sent_lem :
      {A : Type 0} (e : Error) (files : Dict File) (s r : Option A × hre.Chain)
      → s ≡ r
      → Outcome
          (λ a w'. (s ≡ (some a, w'.chain)) × (w'.files ≡ files))
          (λ w'. (w'.chain ≡ s.1) × (w'.files ≡ files))
          (or_throw e r.0, record { files = files; chain = r.1 })
  sent_lem e files s (none, c) same = (sym (ap (λ p. p.1) same), refl)
  sent_lem e files s (some a, c) same = (same, refl)

  -- The chain after it is that of the transaction, and no file has changed.
  pub transact-sent :
      {A : Type 0} (method : String) (send : hre.Chain → Option A × hre.Chain) (w : World hre.Chain)
      → Runs
          (λ r w'. (send w.chain ≡ (some r, w'.chain)) × (w'.files ≡ w.files))
          (λ w'. (w'.chain ≡ (send w.chain).1) × (w'.files ≡ w.files))
          (transact method send)
          w
  unfolding transact
  transact-sent method send w = record {
    outcome = sent_lem _ w.files (send w.chain) (send w.chain) refl;
  }
