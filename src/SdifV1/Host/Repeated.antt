-- ===== src/SdifV1/Host/Repeated.antt =====
-- `update_ios` applies nothing twice.
use phytium_sdk.Prelude.{
  ◌≡◌, refl, sym, ap, ◌∙◌, Bool, true, false, not, ◌&&◌, arith, ◌==◌, if◌then◌else◌,
}
use phytium_sdk.SdifV2.Softc.{success, eio}
use phytium_sdk.SdifV1.Softc.{Softc}
use phytium_sdk.SdifV1.Host.{
  Speeds, Clocks, apply_bus_width, apply_power_mode, apply_clock, apply_voltage, finish_ios,
  update_ios,
}
use phytium_sdk.SdifV1.Host.Calls.{refuses}
use phytium_sdk.SdifV1.Host.Settings.{IsSettled, update_ios-IsApplied}

choice_same : {A : Type 0} (b : Bool) (x y : A) → b ≡ true → (if b then x else y) ≡ x
choice_same true x y e = refl
choice_same false x y e = absurd (ground arith)

accepted : (b : Bool) → (if b then eio else success) ≡ success → b ≡ false
accepted true e = absurd (ground arith)
accepted false e = refl

unlocked_same : (s : Softc) → s.locked ≡ false → record s { locked = false } ≡ s
unlocked_same s e = ground arith

choice_other : {A : Type 0} (b : Bool) (x y : A) → b ≡ false → (if b then x else y) ≡ y
choice_other true x y e = absurd (ground arith)
choice_other false x y e = refl

module _ (p : Speeds) (k : Clocks) where
  settled-apply_bus_width : (s : Softc) → s.bus_width ≡ s.host.ios.bus_width → apply_bus_width s ≡ s
  unfolding apply_bus_width
  settled-apply_bus_width s e = ground arith

  settled-apply_power_mode :
      (s : Softc) → s.power_mode ≡ s.host.ios.power_mode → apply_power_mode s ≡ s
  unfolding apply_power_mode
  settled-apply_power_mode s e =
      choice_same (s.power_mode == s.host.ios.power_mode) s _ (ground arith)

  settled-apply_clock :
      (s : Softc) → s.card_clock ≡ s.host.ios.clock → apply_clock p k s ≡ (success, s)
  unfolding apply_clock
  settled-apply_clock s e =
      choice_same (s.card_clock == s.host.ios.clock) (success, s) _ (ground arith)

  settled-apply_voltage :
      (s : Softc) → (s.non_removable ≡ false → s.voltage ≡ s.host.ios.vdd) → apply_voltage s ≡ s
  unfolding apply_voltage
  settled-apply_voltage s e =
      choice_other (not s.non_removable && not (s.voltage == s.host.ios.vdd)) _ s (ground arith)

settled-update_ios :
    (p : Speeds) (k : Clocks) (s : Softc)
    → IsSettled s
    → update_ios p k s ≡ (success, record s { locked = false })
unfolding update_ios finish_ios
settled-update_ios p k s x =
    let t = record s { locked = true } in
    rw
      (
        settled-apply_bus_width p k t x.width,
        settled-apply_power_mode p k t x.power,
        settled-apply_clock p k t x.clock,
        settled-apply_voltage p k t x.volt,
      )
      refl

-- A successful call leaves nothing to apply: the next one, for the same settings of the host,
-- succeeds without a call of the FSdif layer and without a change of the state.
pub update_ios_idempotent :
    (p : Speeds) (k : Clocks) (s : Softc)
    → (update_ios p k s).0 ≡ success
    → update_ios p k (update_ios p k s).1 ≡ (success, (update_ios p k s).1)
update_ios_idempotent p k s e =
    let x = update_ios-IsApplied p k s in
    settled-update_ios p k (update_ios p k s).1
      (x.settled (accepted (refuses p k s) (sym x.answer ∙ e)))
    ∙ ap (λ t. (success, t)) (unlocked_same (update_ios p k s).1 x.unlocked)
