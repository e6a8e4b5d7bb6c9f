-- ===== src/Accounts/Emptied.antt =====
-- The task empty-wallet sends what is left after the cost of the transfer, or nothing.
use reserve_protocol.Base.{
  ◌≡◌, refl, sym, ◌∙◌, ap, subst, ◌⊎◌, inl, inr, Option, some, arith, not, true,
}
use reserve_protocol.Base.Int.{ℤ, pos, ◌+ℤ◌, ◌-ℤ◌, ◌*ℤ◌, ◌≤ℤ◌, +ℤ_parts, -ℤ_parts, eq_of_parts}
use reserve_protocol.Base.Text.{Dict}
use reserve_protocol.BigNumber.{BigNumbers, IsBigNumbers}
use reserve_protocol.Errors.{Error, ok, or_throw, or_throw-eq-ok, >>=-eq-ok, ok-injective}
use reserve_protocol.Deploy.Guards.{throw_if}
use reserve_protocol.Deploy.Tasks.{param}
use reserve_protocol.Accounts.{Transaction, Wallet, transfer_all, empty_wallet}
use reserve_protocol.Chain.{Arg, Hardhat, World}
use reserve_protocol.Chain.Outcome.{Runs, Runs-reads, Runs-check, Runs-weaken}
use reserve_protocol.Chain.Sent.{transact-sent}

module _ (hre : Hardhat) (wallet : Wallet hre) (big : BigNumbers) (laws : IsBigNumbers big)
    (params : Dict Arg) (w : World hre.Chain) where
  -- The transaction empties the wallet: its value is positive, and with the cost of 21,000 units of
  -- gas it is the balance.
  pub record IsAll (tx : Transaction) : Type 0 where
    pub balance : ℤ
    pub held : wallet.balance w.chain ≡ some balance
    pub priced : wallet.gas_price w.chain ≡ some tx.gas_price
    pub to : tx.to ≡ param params "recipient"
    pub positive : pos 1 ≤ℤ tx.value
    pub whole : (tx.value +ℤ (tx.gas_price *ℤ pos 21_000)) ≡ balance

  rest_positive : (a b : ℤ) → big.gt a b ≡ true → pos 1 ≤ℤ (a -ℤ b)
  rest_positive a b h = ground (arith, laws.gt_law a b, -ℤ_parts a b)

  rest_whole : (a b : ℤ) → ((a -ℤ b) +ℤ b) ≡ a
  rest_whole a b = eq_of_parts ((a -ℤ b) +ℤ b) a (omega (arith, +ℤ_parts (a -ℤ b) b, -ℤ_parts a b))

  transfer_all-IsAll : (tx : Transaction) → transfer_all hre wallet big params w ≡ ok tx → IsAll tx
  unfolding transfer_all
  transfer_all-IsAll tx h =
      let (bal, e₀, h) = >>=-eq-ok (or_throw Error.provider_error (wallet.balance w.chain)) _ h in
      let (price, e₁, h) =
        >>=-eq-ok (or_throw Error.provider_error (wallet.gas_price w.chain)) _ h in
      let cost = big.mul price (pos 21_000) in
      let (u, e₂, h) =
        >>=-eq-ok (throw_if (not (big.gt bal cost)) (Error.check_failed "balance")) _ h in
      let enough : big.gt bal cost ≡ true = ground arith in
      subst IsAll (ok-injective h) (record {
        balance = bal;
        held = or_throw-eq-ok _ _ e₀;
        priced = or_throw-eq-ok _ _ e₁;
        to = refl;
        positive =
            subst (λ v. pos 1 ≤ℤ v) (sym (laws.sub_law bal cost)) (rest_positive bal cost enough);
        whole =
            ap (λ v. v +ℤ (price *ℤ pos 21_000)) (laws.sub_law bal cost)
            ∙ ap (λ c. (bal -ℤ cost) +ℤ c) (sym (laws.mul_law price (pos 21_000)))
            ∙ rest_whole bal cost;
      })

  abbrev pub sent_by : Transaction → Option (Unit {0}) × hre.Chain
  sent_by tx = wallet.send_transaction tx w.chain

  -- The task empty-wallet sends one transaction, whose value is positive and makes up the balance with
  -- the cost of the transfer, and goes to the recipient. If it throws, nothing has changed, or such a
  -- transaction has been sent and has failed.
  pub empty_wallet-IsAll :
      Runs
        (λ u w'.
          (tx : Transaction) × IsAll tx × (sent_by tx ≡ (some u, w'.chain)) × (w'.files ≡ w.files))
        (λ w'.
          (w' ≡ w)
          ⊎ (tx : Transaction) × IsAll tx × (w'.chain ≡ (sent_by tx).1) × (w'.files ≡ w.files))
        (empty_wallet hre wallet big params)
        w
  unfolding empty_wallet
  empty_wallet-IsAll = Runs-check _ (inl refl) λ id started. Runs-reads _ (inl refl) λ tx made.
      Runs-weaken _ _ _ _ (transact-sent hre _ _ w)
        (λ u w' (sent, same). (tx, transfer_all-IsAll tx made, sent, same))
        (λ w' (sent, same). inr (tx, transfer_all-IsAll tx made, sent, same))
