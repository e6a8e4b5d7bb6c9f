-- ===== src/Events/Emitted.antt =====
-- expectEvents accepts a transaction exactly if every event is emitted, or not, as it says.
use reserve_protocol.Base.{
  String, ◌≡◌, refl, ◌↔◌, Bool, true, false, not, Option, none, some, List, [], ◌∷◌, All, arith,
}
use reserve_protocol.Errors.{ok}
use reserve_protocol.Events.{IEvent, expect_event, expect_events}

module _ {Contract V : Type 0} (emits : Contract → String → Bool)
    (emits_with : Contract → String → List V → Bool) where
  -- What the matchers have to say of the transaction for an entry.
  abbrev pub emission : Bool → Option (List V) → Contract → String → Bool
  emission false args contract name = not (emits contract name)
  emission true none contract name = emits contract name
  emission true (some args) contract name = emits_with contract name args

  abbrev pub IsAsExpected : IEvent Contract V → Type 0
  IsAsExpected evt = emission evt.emitted evt.args evt.contract evt.name ≡ true

  expect_event_iff :
      (evt : IEvent Contract V) → (expect_event emits emits_with evt ≡ ok tt) ↔ IsAsExpected evt
  unfolding expect_event
  expect_event_iff evt = ground arith

  -- expectEvents passes exactly if each entry is as the matchers say: emitted with its arguments,
  -- emitted where it has none, or not emitted.
  pub expect_events_iff :
      (events : List (IEvent Contract V))
      → (expect_events emits emits_with events ≡ ok tt) ↔ All IsAsExpected events
  unfolding expect_events
  expect_events_iff [] = (λ h. tt, λ h. refl)
  expect_events_iff (evt ∷ events) = ground (arith, expect_event_iff evt, expect_events_iff events)
