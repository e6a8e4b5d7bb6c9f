-- ===== src/Verify/Quiet.antt =====
-- What a run of the verification submits: what Etherscan has is left alone, and a failed
-- verification does not stop the others.
use reserve_protocol.Base.{
  String, ◌≡◌, refl, ◌∙◌, ap, ◌↔◌, true, Option, List, [], ◌∷◌, Bool, false, sym, subst, inl, inr,
  Bool-cases, if◌then◌else◌,
}
use reserve_protocol.Chain.Steps.{>>-step, >>-throw, reads-step, reads-throw}
use reserve_protocol.Errors.{Error, Result, ok, err, Result-cases}
use reserve_protocol.Chain.{Hardhat, World, pure}
use reserve_protocol.Verify.{
  Request, Response, Etherscan, is_verified, ask_status, submit, verify_contract, verify_each,
}

module _ (hre : Hardhat) (etherscan : Etherscan hre) (chain_id : String) where
  -- Etherscan answers for the contract.
  abbrev pub IsReached : World hre.Chain → Option String → Response → Type 0
  IsReached w address r = ask_status hre etherscan chain_id address w ≡ ok r

  -- What the calls of verifyContract do in turn: each request is made, and Etherscan asked about its
  -- contract; the request is left out if Etherscan has the source, and submitted once if not.
  pub data Verified
      : List (World hre.Chain → Result Request) → World hre.Chain → World hre.Chain → Type 0 where
    finished : {w : World hre.Chain} → Verified [] w w
    known :
        {make : World hre.Chain → Result Request} {makes : List (World hre.Chain → Result Request)}
        {w w' : World hre.Chain} (request : Request) (r : Response)
        → make w ≡ ok request
        → IsReached w request.address r
        → is_verified r ≡ true
        → Verified makes w w'
        → Verified (make ∷ makes) w w'
    submitted :
        {make : World hre.Chain → Result Request} {makes : List (World hre.Chain → Result Request)}
        {w w' : World hre.Chain} (request : Request) (r : Response)
        → make w ≡ ok request
        → IsReached w request.address r
        → is_verified r ≡ false
        → Verified makes (record w { chain = (etherscan.run_verify request w.chain).1 }) w'
        → Verified (make ∷ makes) w w'

  either :
      (b : Bool) (request : Request) (w : World hre.Chain)
      → ((if b then pure tt else submit hre etherscan request) w).0 ≡ ok tt
  unfolding pure submit
  either true request w = refl
  either false request w = refl

  -- verifyContract ends exactly if Etherscan answers: a failed verification is no throw.
  pub verify_contract-ok_iff :
      (w : World hre.Chain) (request : Request)
      → ((verify_contract hre etherscan chain_id request w).0 ≡ ok tt)
        ↔ (r : Response) × IsReached w request.address r
  unfolding verify_contract pure submit
  verify_contract-ok_iff w request =
      elim (Result-cases (ask_status hre etherscan chain_id request.address w)) [
        | inl (e, h) ↦
            let threw = reads-throw (ask_status hre etherscan chain_id request.address) _ w h in
            (
              λ p. absurd (let q = sym (ap (λ r. r.0) threw) ∙ p in cc),
              λ (r, reached). absurd (let q = sym h ∙ reached in cc),
            )
        | inr (r, h) ↦
            let step = reads-step (ask_status hre etherscan chain_id request.address) _ w h in
            (λ p. (r, h), λ q. ap (λ r. r.0) step ∙ either (is_verified r) request w)
      ]

  contract_known :
      (w : World hre.Chain) (request : Request) (r : Response)
      → IsReached w request.address r
      → is_verified r ≡ true
      → verify_contract hre etherscan chain_id request w ≡ (ok tt, w)
  unfolding verify_contract pure
  contract_known w request r reached done =
      reads-step (ask_status hre etherscan chain_id request.address) _ w reached
      ∙ ap (λ b. (if b then pure tt else submit hre etherscan request) w) done

  contract_submitted :
      (w : World hre.Chain) (request : Request) (r : Response)
      → IsReached w request.address r
      → is_verified r ≡ false
      → verify_contract hre etherscan chain_id request w
        ≡ (ok tt, record w { chain = (etherscan.run_verify request w.chain).1 })
  unfolding verify_contract pure submit
  contract_submitted w request r reached new =
      reads-step (ask_status hre etherscan chain_id request.address) _ w reached
      ∙ ap (λ b. (if b then pure tt else submit hre etherscan request) w) new

  -- one call, and those after it
  verify_each-step :
      (make : World hre.Chain → Result Request) (makes : List (World hre.Chain → Result Request))
      (w v : World hre.Chain) (request : Request)
      → make w ≡ ok request
      → verify_contract hre etherscan chain_id request w ≡ (ok tt, v)
      → verify_each hre etherscan chain_id (make ∷ makes) w
        ≡ verify_each hre etherscan chain_id makes v
  unfolding verify_each
  verify_each-step make makes w v request made called =
      reads-step make _ w made
      ∙ >>-step (verify_contract hre etherscan chain_id request)
          (verify_each hre etherscan chain_id makes) w called

  Verified-ends :
      {makes : List (World hre.Chain → Result Request)} {w w' : World hre.Chain}
      → Verified makes w w'
      → verify_each hre etherscan chain_id makes w ≡ (ok tt, w')
  unfolding verify_each pure
  Verified-ends finished = refl
  Verified-ends (known {make} {makes} {w} {w'} request r made reached done v) =
      verify_each-step make makes w w request made (contract_known w request r reached done)
      ∙ Verified-ends v
  Verified-ends (submitted {make} {makes} {w} {w'} request r made reached new v) =
      verify_each-step make makes w _ request made (contract_submitted w request r reached new)
      ∙ Verified-ends v

  -- A request that cannot be made, or an answer that cannot be had, is a throw.
  unmade :
      (make : World hre.Chain → Result Request) (makes : List (World hre.Chain → Result Request))
      (w : World hre.Chain) {e : Error}
      → make w ≡ err e
      → (verify_each hre etherscan chain_id (make ∷ makes) w).0 ≡ err e
  unfolding verify_each
  unmade make makes w h = ap (λ r. r.0) (reads-throw make _ w h)

  unanswered :
      (make : World hre.Chain → Result Request) (makes : List (World hre.Chain → Result Request))
      (w : World hre.Chain) {e : Error} (request : Request)
      → make w ≡ ok request
      → ask_status hre etherscan chain_id request.address w ≡ err e
      → (verify_each hre etherscan chain_id (make ∷ makes) w).0 ≡ err e
  unfolding verify_each verify_contract
  unanswered make makes w request made h =
      ap (λ r. r.0)
        (reads-step make _ w made
          ∙ >>-throw (verify_contract hre etherscan chain_id request)
              (verify_each hre etherscan chain_id makes) w
              (reads-throw (ask_status hre etherscan chain_id request.address) _ w h))

  ends-Verified :
      (makes : List (World hre.Chain → Result Request)) (w w' : World hre.Chain)
      → verify_each hre etherscan chain_id makes w ≡ (ok tt, w')
      → Verified makes w w'
  unfolding verify_each pure
  ends-Verified [] w w' h = subst (Verified [] w) (ap (λ r. r.1) h) finished
  ends-Verified (make ∷ makes) w w' h = elim (Result-cases (make w)) [
    | inl (e, failed) ↦ absurd (let q = sym (unmade make makes w failed) ∙ ap (λ r. r.0) h in cc)
    | inr (request, made) ↦
        elim (Result-cases (ask_status hre etherscan chain_id request.address w)) [
          | inl (e, failed) ↦
              absurd
                (let q = sym (unanswered make makes w request made failed) ∙ ap (λ r. r.0) h in cc)
          | inr (r, reached) ↦ elim (Bool-cases (is_verified r)) [
            | inl done ↦ known request r made reached done (
                ends-Verified makes w w' (
                  sym (
                    verify_each-step make makes w w request made
                      (contract_known w request r reached done))
                  ∙ h))
            | inr new ↦ submitted request r made reached new (
                ends-Verified makes _ w' (
                  sym (
                    verify_each-step make makes w _ request made
                      (contract_submitted w request r reached new))
                  ∙ h))
          ]
        ]
  ]

  -- The calls of verifyContract end in the state w' exactly if w' is what is left when each contract
  -- in turn is left out where Etherscan has its source, and submitted once, successfully or not,
  -- where it has not; each request has to be made and each answer to be had.
  pub verify_each_iff :
      (makes : List (World hre.Chain → Result Request)) (w w' : World hre.Chain)
      → (verify_each hre etherscan chain_id makes w ≡ (ok tt, w')) ↔ Verified makes w w'
  verify_each_iff makes w w' = (ends-Verified makes w w', Verified-ends)
