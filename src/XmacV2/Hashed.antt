-- ===== src/XmacV2/Hashed.antt =====
-- What the receive filter of the second driver asks of the firmware.
use phytium_sdk.Prelude.{
  ℕ, ◌-◌, ◌^◌, ◌<◌, ◌≡◌, refl, ap, ◌∙◌, fun_ext, Bool, true, false, not, ◌&&◌, ◌||◌, List, [], ◌∷◌,
  Option, none, some, Outcome, returns, ◌>>=◌, bind-returns, if◌then◌else◌, arith,
}
use phytium_sdk.Bits.{differs}
use phytium_sdk.Xmac.Softc.{XmacReg}
use phytium_sdk.Xmac.Tx.Ring.{TxReg}
use phytium_sdk.Xmac.If.Filter.{Hashes, hash_maddr, hash_all}
use phytium_sdk.Xmac.If.Hashes.{any_hash, hash_bit, chosen-hash_bit}
use phytium_sdk.Xmac.If.Ioctl.{IoctlCalls, siocsifflags}
use phytium_sdk.XmacV2.Driver.{
  MsgDriver, MsgReg, Message, enable_promise, set_mc_hash, tell, tell_if,
}
use phytium_sdk.XmacV2.Rings.{msg_hash_maddr}
use phytium_sdk.XmacV2.Filter.{msg_hash_all, msg_hashes_for, msg_rx_filter}
use phytium_sdk.XmacV2.Ioctl.{msg_set_flags, msg_ioctl}

msg_hash_all-hash_all : (es : List (ℕ → ℕ)) (hs : Hashes) → msg_hash_all es hs ≡ hash_all es hs
unfolding msg_hash_all msg_hash_maddr hash_all
msg_hash_all-hash_all [] hs = refl
msg_hash_all-hash_all (e ∷ es) hs =
    ap (λ next. hash_maddr e hs >>= next) (fun_ext (msg_hash_all-hash_all es))

pub msg_hashes_for-hash_bit :
    (d : MsgDriver)
    → (hs : Hashes) × (msg_hashes_for d ≡ returns hs)
      × ((k : ℕ)
          → k < 64
          → hash_bit hs k ≡ (not d.flags.promisc && (d.flags.allmulti || any_hash d.multicast k)))
unfolding msg_hashes_for
msg_hashes_for-hash_bit d =
    let (hs, e, bits) = chosen-hash_bit d.flags.promisc d.flags.allmulti d.multicast in
    let all_none : Hashes = record { high = 0; low = 0 } in
    (
      hs,
      ap
            (λ o.
              if d.flags.promisc
              then returns all_none
              else if d.flags.allmulti
              then returns (record { high = 2 ^ 32 - 1; low = 2 ^ 32 - 1 })
              else o)
            (msg_hash_all-hash_all d.multicast all_none)
          ∙ e,
      bits,
    )

-- what the firmware was last told of promiscuity
unfoldable pub last_promise : List Message → Option Bool
last_promise [] = none
last_promise (enable_promise b ∷ ms) = some b
last_promise (_ ∷ ms) = last_promise ms

-- what the filter asks for
pub record AsksFor (d t : MsgDriver) (hs : Hashes) : Type 0 where
  pub sent : (before : List Message) × (t.messages ≡ set_mc_hash hs.high hs.low ∷ before)
  pub hashed :
      (k : ℕ)
      → k < 64
      → hash_bit hs k ≡ (not d.flags.promisc && (d.flags.allmulti || any_hash d.multicast k))
  pub promise :
      last_promise t.messages ≡ (if d.flags.promisc then some true else last_promise d.messages)
  pub same_rx : t.rx ≡ d.rx
  pub same_tx : t.tx ≡ d.tx

promise_if :
    (b : Bool) (ms : List Message)
    → last_promise (if b then enable_promise true ∷ ms else ms)
      ≡ (if b then some true else last_promise ms)
unfolding last_promise
promise_if true ms = refl
promise_if false ms = refl

-- The receive filter returns. It last sends the hash registers, whose bit `k` is on exactly when
-- all multicast packets are wanted or an address of the list has the hash `k`, and the interface is
-- not promiscuous. It asks for promiscuity when the interface is promiscuous, and otherwise leaves
-- what the firmware was told of it before.
pub msg_rx_filter-AsksFor :
    (d : MsgDriver)
    → (t : MsgDriver) × (hs : Hashes) × (msg_rx_filter d ≡ returns t) × AsksFor d t hs
unfolding msg_rx_filter tell tell_if last_promise
msg_rx_filter-AsksFor d =
    let (hs, e, bits) = msg_hashes_for-hash_bit d in
    (
      _,
      hs,
      bind-returns (msg_hashes_for d) _ e,
      record {
        sent = (_, refl);
        hashed = bits;
        promise = promise_if d.flags.promisc d.messages;
        same_rx = refl;
        same_tx = refl;
      },
    )

both_on :
    (u r : Bool) (x y z : Outcome MsgDriver)
    → u ≡ true
    → r ≡ true
    → (if u then (if r then x else y) else z) ≡ x
both_on true true x y z e f = refl
both_on true false x y z e f = absurd (ground arith)
both_on false r x y z e f = absurd (ground arith)

-- the filter runs, or nothing changes
changed_or_not :
    (b : Bool) (d : MsgDriver) {o : Outcome MsgDriver} {t : MsgDriver}
    → o ≡ returns t
    → last_promise t.messages ≡ last_promise d.messages
    → (u : MsgDriver) × ((if b then o else returns d) ≡ returns u)
      × (last_promise u.messages ≡ last_promise d.messages)
changed_or_not true d {t = t} e same = (t, e, same)
changed_or_not false d e same = (d, refl, refl)

module _ (reg : MsgReg) (xreg : XmacReg) (txreg : TxReg) (calls : IoctlCalls) (d : MsgDriver) where
  set_flags-promise :
      d.running ≡ true
      → d.flags.up ≡ true
      → d.flags.promisc ≡ false
      → (t : MsgDriver) × (msg_set_flags reg xreg txreg calls d ≡ returns t)
        × (last_promise t.messages ≡ last_promise d.messages)
  unfolding msg_set_flags
  set_flags-promise on up off =
      let (t, hs, e, f) = msg_rx_filter-AsksFor d in
      let kept : last_promise t.messages ≡ last_promise d.messages =
        f.promise ∙ ap (λ b. if b then some true else last_promise d.messages) off in
      let (u, g, same) =
        changed_or_not
          (differs d.flags.promisc d.old_flags.promisc
            || differs d.flags.allmulti d.old_flags.allmulti)
          d e kept in
      (u, both_on d.flags.up d.running _ _ _ up on ∙ g, same)

  -- Promiscuity sticks: once the firmware was told to be promiscuous, SIOCSIFFLAGS of a running
  -- interface that is up and no longer promiscuous returns 0 without telling it otherwise.
  pub ioctl-promise_sticks :
      d.running ≡ true
      → d.flags.up ≡ true
      → d.flags.promisc ≡ false
      → last_promise d.messages ≡ some true
      → (t : MsgDriver) × (msg_ioctl reg xreg txreg calls siocsifflags d ≡ returns (0, t))
        × (last_promise t.messages ≡ some true)
  unfolding msg_ioctl
  ioctl-promise_sticks on up off told =
      let (t, e, same) = set_flags-promise on up off in
      (_, bind-returns (msg_set_flags reg xreg txreg calls d) _ e, same ∙ told)
