-- ===== src/Chain/Steps.antt =====
-- A script whose first part is known to end goes on from there.
use reserve_protocol.Base.{◌≡◌, ap}
use reserve_protocol.Errors.{Error, Result, ok, err}
use reserve_protocol.Chain.{World, Script, ◌>>=◌, ◌>>◌, reads}

module _ {C A B : Type 0} where
  pub >>=-step :
      (m : Script C A) (f : A → Script C B) (w : World C) {a : A} {w' : World C}
      → m w ≡ (ok a, w')
      → (m >>= f) w ≡ f a w'
  unfolding ◌>>=◌
  >>=-step m f w h =
      ap (λ (r : Result A × World C). elim r.0 [ ok a ↦ f a r.1 | err e ↦ (err e, r.1) ]) h

  pub >>-step :
      (m : Script C A) (k : Script C B) (w : World C) {a : A} {w' : World C}
      → m w ≡ (ok a, w')
      → (m >> k) w ≡ k w'
  unfolding ◌>>◌
  >>-step m k w h = >>=-step m (λ a. k) w h

  -- a first part that throws
  pub >>-throw :
      (m : Script C A) (k : Script C B) (w : World C) {e : Error} {w' : World C}
      → m w ≡ (err e, w')
      → (m >> k) w ≡ (err e, w')
  unfolding ◌>>◌ ◌>>=◌
  >>-throw m k w h =
      ap (λ (r : Result A × World C). elim r.0 [ ok a ↦ k r.1 | err e ↦ (err e, r.1) ]) h

  pub reads-step :
      (g : World C → Result A) (f : A → Script C B) (w : World C) {a : A}
      → g w ≡ ok a
      → (reads g >>= f) w ≡ f a w
  unfolding reads
  reads-step g f w h = >>=-step (reads g) f w (ap (λ r. (r, w)) h)

  -- a read that throws
  pub reads-throw :
      (g : World C → Result A) (f : A → Script C B) (w : World C) {e : Error}
      → g w ≡ err e
      → (reads g >>= f) w ≡ (err e, w)
  unfolding reads ◌>>=◌
  reads-throw g f w h = ap (λ (r : Result A). elim r [ ok a ↦ f a w | err e ↦ (err e, w) ]) h
