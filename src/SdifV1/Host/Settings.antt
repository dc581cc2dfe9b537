-- ===== src/SdifV1/Host/Settings.antt =====
-- What `update_ios` applies.
use phytium_sdk.Prelude.{
  ◌≡◌, refl, ap, ◌∙◌, Bool, true, false, List, [], ◌++◌, arith, if◌then◌else◌,
}
use phytium_sdk.SdifV2.Softc.{Errno, success, eio}
use phytium_sdk.SdifV1.Softc.{Softc, Effect}
use phytium_sdk.SdifV1.Host.{
  Speeds, Clocks, apply_bus_width, apply_power_mode, apply_clock, apply_voltage, finish_ios,
  clock_by_calc, clock_by_dict, update_ios,
}
use phytium_sdk.SdifV1.Host.Calls.{
  width_calls, power_of, power_calls, voltage_calls, clock_calls, refuses,
}

-- The settings that the driver remembers are those of the host; a card that is not removable keeps
-- its voltage.
pub record IsSettled (t : Softc) : Type 0 where
  pub width : t.bus_width ≡ t.host.ios.bus_width
  pub power : t.power_mode ≡ t.host.ios.power_mode
  pub clock : t.card_clock ≡ t.host.ios.clock
  pub volt : t.non_removable ≡ false → t.voltage ≡ t.host.ios.vdd

apply_clock-eio_iff :
    (p : Speeds) (k : Clocks) (s : Softc)
    → (apply_clock p k s).0 ≡ (if refuses p k s then eio else success)
unfolding apply_clock refuses
apply_clock-eio_iff p k s = ground arith

-- what the settings before the clock leave of the state
pub record Readied (s t : Softc) : Type 0 where
  pub same_host : t.host ≡ s.host
  pub same_kind : t.non_removable ≡ s.non_removable
  pub same_fix : t.pre_fix_timing ≡ s.pre_fix_timing
  pub same_clock : t.card_clock ≡ s.card_clock
  pub same_volt : t.voltage ≡ s.voltage
  pub calls : t.log ≡ power_calls s ++ (width_calls s ++ s.log)
  pub width : t.bus_width ≡ s.host.ios.bus_width
  pub power : t.power_mode ≡ s.host.ios.power_mode

-- the settings before the clock
abbrev readied : Softc → Softc
readied s = apply_power_mode (apply_bus_width (record s { locked = true }))

-- the bus width touches nothing that the power mode reads
width_keeps :
    (s : Softc)
    → let t = apply_bus_width (record s { locked = true }) in
      (t.host ≡ s.host) × (t.power_mode ≡ s.power_mode) × (t.log ≡ width_calls s ++ s.log)
unfolding apply_bus_width
width_keeps s = (ground arith, ground arith, ground arith)

power_log : (s : Softc) → (apply_power_mode s).log ≡ power_calls s ++ s.log
unfolding apply_power_mode
power_log s = ground arith

readied_log : (s : Softc) → (readied s).log ≡ power_calls s ++ (width_calls s ++ s.log)
readied_log s =
    let t = apply_bus_width (record s { locked = true }) in
    let (same_host, same_mode, log) = width_keeps s in
    power_log t
    ∙ ap (λ m. power_of m t.host ++ t.log) same_mode
    ∙ ap (λ h. power_of s.power_mode h ++ t.log) same_host
    ∙ ap (λ x. power_calls s ++ x) log

readied-Readied : (s : Softc) → Readied s (readied s)
unfolding apply_power_mode apply_bus_width
readied-Readied s = record {
  same_host = ground arith;
  same_kind = ground arith;
  same_fix = ground arith;
  same_clock = ground arith;
  same_volt = ground arith;
  calls = ground arith;
  width = ground arith;
  power = ground arith;
}

module _ (p : Speeds) (k : Clocks) where
  readied-clock_calls : (s : Softc) → clock_calls p k (readied s) ≡ clock_calls p k s
  unfolding refuses
  readied-clock_calls s =
      let r = readied-Readied s in
      ground (arith, r.same_host, r.same_kind, r.same_fix, r.same_clock)

  readied-refuses : (s : Softc) → refuses p k (readied s) ≡ refuses p k s
  unfolding refuses
  readied-refuses s =
      let r = readied-Readied s in
      ground (arith, r.same_host, r.same_kind, r.same_fix, r.same_clock)

  -- the clock touches nothing else of the settings
  clock_keeps :
      (s : Softc)
      → let t = (apply_clock p k s).1 in
        (t.host ≡ s.host)
        × (t.non_removable ≡ s.non_removable)
        × (t.voltage ≡ s.voltage)
        × (t.bus_width ≡ s.bus_width)
        × (t.power_mode ≡ s.power_mode)
        × (t.card_clock ≡ (if refuses p k s then s.card_clock else s.host.ios.clock))
        × (t.log ≡ clock_calls p k s ++ s.log)
  unfolding apply_clock clock_by_calc clock_by_dict refuses
  clock_keeps s = (
    ground arith,
    ground arith,
    ground arith,
    ground arith,
    ground arith,
    ground arith,
    ground arith,
  )

  voltage_settles :
      (s : Softc)
      → s.bus_width ≡ s.host.ios.bus_width
      → s.power_mode ≡ s.host.ios.power_mode
      → s.card_clock ≡ s.host.ios.clock
      → IsSettled (record (apply_voltage s) { locked = false })
  unfolding apply_voltage
  voltage_settles s w m c = record {
    width = ground arith;
    power = ground arith;
    clock = ground arith;
    volt = λ h. ground arith;
  }

-- what `update_ios` leaves of the state, if `b` says that the clock is refused and `clocks` are the
-- calls for it
pub record IsApplied (b : Bool) (clocks : List Effect) (s : Softc) (o : Errno × Softc)
    : Type 0 where
  pub answer : o.0 ≡ (if b then eio else success)
  pub unlocked : o.1.locked ≡ false
  pub same_host : o.1.host ≡ s.host
  pub width : o.1.bus_width ≡ s.host.ios.bus_width
  pub power : o.1.power_mode ≡ s.host.ios.power_mode
  pub clock : o.1.card_clock ≡ (if b then s.card_clock else s.host.ios.clock)
  pub volt : b ≡ true → o.1.voltage ≡ s.voltage
  pub calls :
      o.1.log
      ≡ (if b then [] else voltage_calls s)
        ++ (clocks ++ (power_calls s ++ (width_calls s ++ s.log)))
  pub settled : b ≡ false → IsSettled o.1

finish_ios-IsApplied :
    (b : Bool) (clocks : List Effect) (s : Softc) (o : Errno × Softc)
    → o.0 ≡ (if b then eio else success)
    → o.1.host ≡ s.host
    → o.1.bus_width ≡ s.host.ios.bus_width
    → o.1.power_mode ≡ s.host.ios.power_mode
    → o.1.voltage ≡ s.voltage
    → o.1.non_removable ≡ s.non_removable
    → o.1.log ≡ clocks ++ (power_calls s ++ (width_calls s ++ s.log))
    → o.1.card_clock ≡ (if b then s.card_clock else s.host.ios.clock)
    → IsApplied b clocks s (finish_ios o)
unfolding finish_ios apply_voltage
finish_ios-IsApplied true clocks s (eio, t) a h w m v n g c = record {
  answer = refl;
  unlocked = refl;
  same_host = h;
  width = w;
  power = m;
  clock = c;
  volt = λ x. v;
  calls = g;
  settled = λ x. absurd (ground arith);
}
finish_ios-IsApplied false clocks s (success, t) a h w m v n g c = record {
  answer = refl;
  unlocked = refl;
  same_host = ground arith;
  width = ground arith;
  power = ground arith;
  clock = ground arith;
  volt = λ x. absurd (ground arith);
  calls = ground arith;
  settled = λ x. record {
    width = ground arith;
    power = ground arith;
    clock = ground arith;
    volt = λ y. ground arith;
  };
}
finish_ios-IsApplied b clocks s o a h w m v n g c = absurd (ground arith)

-- After every call the mutex is free, the host's settings are as they were, and the bus width and
-- the power mode are those that the host asks for. The answer is EIO exactly when the clock is
-- refused; the clock and the voltage remembered are then those before the call, and otherwise the
-- clock is the host's, and so is the voltage of a removable card. The calls of the FSdif layer are,
-- in this order: the lines of a bus width that changes, the power off or on for a power mode that
-- changes, the clock that changes, with a fixed timing if one is wanted, and, unless the clock is
-- refused, the data rate for a clock that changes and a voltage of a removable card that changes.
pub update_ios-IsApplied :
    (p : Speeds) (k : Clocks) (s : Softc)
    → IsApplied (refuses p k s) (clock_calls p k s) s (update_ios p k s)
unfolding update_ios
update_ios-IsApplied p k s =
    let r = readied-Readied s in
    let u = readied s in
    let (ch, cn, cv, cw, cm, cc', cl) = clock_keeps p k u in
    let same = readied-refuses p k s in
    finish_ios-IsApplied (refuses p k s) (clock_calls p k s) s (apply_clock p k u)
      (apply_clock-eio_iff p k u ∙ ap (λ b. if b then eio else success) same) (ch ∙ r.same_host)
      (cw ∙ r.width) (cm ∙ r.power) (cv ∙ r.same_volt) (cn ∙ r.same_kind)
      (cl
        ∙ ap (λ x. x ++ u.log) (readied-clock_calls p k s)
        ∙ ap (λ x. clock_calls p k s ++ x) r.calls)
      (cc'
        ∙ ap (λ b. if b then u.card_clock else u.host.ios.clock) same
        ∙ ap (λ x. if refuses p k s then x else u.host.ios.clock) r.same_clock
        ∙ ap (λ x. if refuses p k s then s.card_clock else x.ios.clock) r.same_host)
