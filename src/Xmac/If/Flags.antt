-- ===== src/Xmac/If/Flags.antt =====
-- SIOCSIFFLAGS starts and stops the interface as its flags say.
use phytium_sdk.Prelude.{
  ◌≡◌, ◌⊎◌, inl, inr, refl, sym, ap, subst, ◌∙◌, Bool, true, false, [], Outcome, returns, ◌>>=◌,
  if◌then◌else◌, Bool-cases,
}
use phytium_sdk.Xmac.Softc.{XmacReg}
use phytium_sdk.Xmac.Rx.{rx_wrap}
use phytium_sdk.Xmac.Rx.Fill.{fill_rqueue-IsRefilled}
use phytium_sdk.Xmac.Tx.Ring.{TxReg}
use phytium_sdk.Xmac.Tx.Words.{IsTxLayout}
use phytium_sdk.Xmac.Tx.Queue.{IsTxRing}
use phytium_sdk.Xmac.If.Driver.{Driver, IfReg, write_reg, set_net_cfg, set_net_ctl}
use phytium_sdk.Xmac.If.Filter.{rx_filter}
use phytium_sdk.Xmac.If.Hashes.{hashes_for-hash_bit}
use phytium_sdk.Xmac.If.Start.{config, init_locked, stop, reset}
use phytium_sdk.Xmac.If.Ioctl.{IoctlCalls, siocsifflags, set_flags, ioctl}
use phytium_sdk.Xmac.If.Sound.{IsReady}
use phytium_sdk.Xmac.If.Stopped.{same_fields, LeavesRing, LeavesRing-IsRing, stop-IsStopped}

-- what SIOCSIFFLAGS makes of the driver `d`
pub record FollowsFlags (txreg : TxReg) (d t : Driver) : Type 0 where
  pub runs_when_up : t.running ≡ d.flags.up
  pub same_flags : t.flags ≡ d.flags
  pub empty_when_stopped :
      (d.flags.up ≡ true)
      ⊎ (d.running ≡ false)
      ⊎ (IsTxRing txreg [] t.tx × (t.rx.rxring_queued ≡ 0))

true-false : true ≡ false → ⊥
true-false e = cc

if-returns :
    {P : Driver → Type 0} (b : Bool) {x y : Outcome Driver}
    → (b ≡ true → (t : Driver) × (x ≡ returns t) × P t)
    → (b ≡ false → (t : Driver) × (y ≡ returns t) × P t)
    → (t : Driver) × ((if b then x else y) ≡ returns t) × P t
if-returns true f g = f refl
if-returns false f g = g refl

call-returns :
    {P : Driver → Type 0} {A : Type 0} {o : Outcome A} {a : A} (next : A → Outcome Driver)
    → o ≡ returns a
    → (t : Driver) × (next a ≡ returns t) × P t
    → (t : Driver) × ((o >>= next) ≡ returns t) × P t
call-returns {P} next e f = subst (λ o. (t : Driver) × ((o >>= next) ≡ returns t) × P t) (sym e) f

module _ (reg : IfReg) (xreg : XmacReg) (txreg : TxReg) (l : IsTxLayout txreg) (calls : IoctlCalls)
    (d : Driver) (ready : IsReady txreg d) where
  filtered :
      d.running ≡ true
      → d.flags.up ≡ true
      → (t : Driver) × (rx_filter reg d ≡ returns t) × FollowsFlags txreg d t
  unfolding rx_filter write_reg set_net_cfg
  filtered on up =
      let (hs, e, _) = hashes_for-hash_bit d in
      call-returns _ e (
        _,
        refl,
        record { runs_when_up = on ∙ sym up; same_flags = refl; empty_when_stopped = inl up },
      )

  opened :
      d.running ≡ false
      → d.flags.up ≡ true
      → (t : Driver) × (init_locked reg xreg calls.mii_mediachg calls.m_getcl d ≡ returns t)
        × FollowsFlags txreg d t
  unfolding init_locked config set_net_cfg set_net_ctl
  opened off up =
      let c = config reg xreg d in
      let start : LeavesRing d.rx c.rx = same_fields _ _ refl refl refl refl refl in
      let (t, e, g) =
        fill_rqueue-IsRefilled rx_wrap calls.m_getcl c.rx ready.wanted
          (LeavesRing-IsRing d.rx c.rx start ready.rx_ring) in
      if-returns d.running (λ on. absurd (true-false (sym on ∙ off)))
        (λ _. call-returns _ e (
          _,
          refl,
          record { runs_when_up = sym up; same_flags = refl; empty_when_stopped = inl up },
        ))

  closed :
      d.running ≡ true
      → d.flags.up ≡ false
      → FollowsFlags txreg d
          (stop reg xreg txreg calls.designcfg_value (record d { running = false }))
  unfolding stop reset set_net_cfg set_net_ctl
  closed on down =
      let g =
        stop-IsStopped reg xreg txreg l calls.designcfg_value (record d { running = false }) in
      record {
        runs_when_up = sym down;
        same_flags = refl;
        empty_when_stopped = inr (inr (g.tx_empty, g.rx_empty));
      }

  set_flags-FollowsFlags :
      (t : Driver) × (set_flags reg xreg txreg calls d ≡ returns t) × FollowsFlags txreg d t
  unfolding set_flags
  set_flags-FollowsFlags =
      if-returns d.flags.up
        (λ up.
          if-returns d.running
            (λ on.
              if-returns _ (λ _. filtered on up)
                (λ _. (
                  d,
                  refl,
                  record {
                    runs_when_up = on ∙ sym up;
                    same_flags = refl;
                    empty_when_stopped = inl up;
                  },
                )))
            (λ off. opened off up))
        (λ down. (
          if d.running
              then stop reg xreg txreg calls.designcfg_value (record d { running = false })
              else d,
          refl,
          choose down (Bool-cases d.running),
        ))
    where
      choose :
          d.flags.up ≡ false
          → (d.running ≡ true) ⊎ (d.running ≡ false)
          → FollowsFlags txreg d (
              if d.running
              then stop reg xreg txreg calls.designcfg_value (record d { running = false })
              else d)
      choose down (inl on) =
          subst
            (λ b. FollowsFlags txreg d (
              if b
              then stop reg xreg txreg calls.designcfg_value (record d { running = false })
              else d))
            (sym on) (closed on down)
      choose down (inr off) =
          subst
            (λ b. FollowsFlags txreg d (
              if b
              then stop reg xreg txreg calls.designcfg_value (record d { running = false })
              else d))
            (sym off)
            (record {
              runs_when_up = off ∙ sym down;
              same_flags = refl;
              empty_when_stopped = inr (inl off);
            })

  -- SIOCSIFFLAGS succeeds. The interface runs afterwards exactly when it is up, its flags are those
  -- that are remembered, and if it was running and is no longer up, both rings are empty. The rings
  -- are in order before, at most 512 receive buffers are wanted, and the masks of a transmit
  -- descriptor's marks are those of the manual.
  pub ioctl-FollowsFlags :
      (t : Driver) × (ioctl reg xreg txreg calls siocsifflags d ≡ returns (0, t))
      × FollowsFlags txreg d t
      × (t.old_flags ≡ t.flags)
  unfolding ioctl
  ioctl-FollowsFlags =
      let (t, e, f) = set_flags-FollowsFlags in
      (
        record t { old_flags = t.flags },
        ap (λ o. o >>= λ t. returns (0, record t { old_flags = t.flags })) e,
        record {
          runs_when_up = f.runs_when_up;
          same_flags = f.same_flags;
          empty_when_stopped = f.empty_when_stopped;
        },
        refl,
      )
