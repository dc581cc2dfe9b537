-- ===== src/SdifV1/Request/Returns.antt =====
-- The start of a request always returns, with the mutex free.
use phytium_sdk.Prelude.{
  ℕ, ◌/◌, ◌%◌, ◌≤◌, ◌≡◌, refl, ap, ◌∙◌, ◌⊎◌, inl, inr, Bool, true, false, not, ◌&&◌, none, some,
  arith, Outcome, returns, ◌>>=◌, Safe, Bool-cases, Option-cases, bind-Safe, bind-returns,
  if-returns, if◌then◌else◌,
}
use phytium_sdk.SdifV2.Command.{truth}
use phytium_sdk.SdifV2.Softc.{
  MmcCommand, MmcData, MmcReg, Errno, is_success, success, enxio, ecanceled,
}
use phytium_sdk.SdifV2.Poll.{polling_card_busy}
use phytium_sdk.SdifV1.Softc.{FsdifReg, Softc, is_pio, sdif_time_out}
use phytium_sdk.SdifV1.Command.{is_multiple}
use phytium_sdk.SdifV1.Poll.{polling_request_done}
use phytium_sdk.SdifV1.Request.{
  Answers, set_block_count, count_finished, count_cmd, counted, pre_request, described, prepared,
  begun, checked, request, armed, submit, entered, set_error, unlock, has_data, ignored,
}
use phytium_sdk.SdifV1.Request.Waits.{
  Waits, Waits-refl, Waits-trans, Keeps, bind-Keeps, polling_request_done-Keeps,
  polling_card_busy-answers,
}

-- The data of the command can be transferred: by PIO, or from an aligned buffer, or through the
-- bounce buffer.
unfoldable pub CanTransfer : MmcReg → MmcCommand → Softc → Type 0
CanTransfer reg c s =
    (d : MmcData)
    → c.transfer ≡ some d
    → (is_pio s.trans_mode ≡ true)
      ⊎ ((truth (d.payload % reg.dma_buf_alignment) ≡ false) ⊎ (d.len ≤ s.aligned_dma_buf_len))

if-Keeps {ℓ} :
    {A : Type ℓ} (state : A → Softc) (s : Softc) (b : Bool) (x y : Outcome A)
    → (b ≡ true → Keeps state s x)
    → (b ≡ false → Keeps state s y)
    → Keeps state s (if b then x else y)
if-Keeps state s true x y h k = h refl
if-Keeps state s false x y h k = k refl

abbrev state : Errno × Softc → Softc
state o = o.1

module _ (f : FsdifReg) (reg : MmcReg) (a : Answers) where
  count_finished-Keeps : (s : Softc) → s.req ≡ none → Keeps state s (count_finished f reg a s)
  unfolding count_finished
  count_finished-Keeps s e =
      bind-Keeps state state s (polling_request_done reg a.count_irqs sdif_time_out s) _
        (polling_request_done-Keeps reg a.count_irqs sdif_time_out s e)
        (λ o w.
          let (ready, answered) = polling_card_busy-answers a.busy_after_count sdif_time_out in
          if-Keeps state o.1 (is_success o.0) _ _
            (λ good. (
              (ready, o.1),
              ap (λ x. x >>= λ e. returns (e, o.1)) answered,
              Waits-refl o.1 w.no_request,
            ))
            (λ bad. (o, refl, Waits-refl o.1 w.no_request)))

  set_block_count-Keeps :
      (d : MmcData) (s : Softc) → s.req ≡ none → Keeps state s (set_block_count f reg a (some d) s)
  unfolding set_block_count armed submit
  set_block_count-Keeps d s e =
      let t =
        submit (armed false (record s { cmd_pkg = count_cmd f reg (d.len / reg.sector_size) s })) in
      let same : Waits s t = record {
        no_request = e;
        same_mode = refl;
        same_room = refl;
        same_requests = refl;
      } in
      if-Keeps state s a.count_started _ _
        (λ goes. let (o, h, w) = count_finished-Keeps t e in (o, h, Waits-trans s t o.1 same w))
        (λ refused. ((enxio, t), refl, same))

  counted-Keeps : (c : MmcCommand) (s : Softc) → s.req ≡ none → Keeps state s (counted f reg a c s)
  unfolding counted has_data
  counted-Keeps c s e = elim (Option-cases c.transfer) [
    | inl nothing ↦ ((success, s), ground arith, Waits-refl s e)
    | inr (d, there) ↦
        if-Keeps state s (not s.auto_stop && is_multiple reg c.opcode && has_data c) _ _
          (λ goes. simp there (set_block_count-Keeps d s e))
          (λ passes. ((success, s), refl, Waits-refl s e))
  ]

  pre_request-Keeps : (r : ℕ) (s : Softc) → s.req ≡ none → Keeps state s (pre_request f reg a r s)
  unfolding pre_request
  pre_request-Keeps r s e =
      bind-Keeps state state s (counted f reg a (s.requests r) s) _
        (counted-Keeps (s.requests r) s e)
        (λ o w.
          if-Keeps state o.1 (o.1.non_removable && ignored f reg (o.1.requests r)) _ _
            (λ h. ((ecanceled, o.1), refl, Waits-refl o.1 w.no_request))
            (λ h. (o, refl, Waits-refl o.1 w.no_request)))

  prepared-Safe : (c : MmcCommand) (s : Softc) → CanTransfer reg c s → Safe (prepared f reg a c s)
  unfolding prepared CanTransfer
  prepared-Safe c s can = elim (Option-cases c.transfer) [
    | inl nothing ↦ ground arith
    | inr (d, there) ↦ ground (arith, can d there)
  ]

  pub begun-Safe : (r : ℕ) (s : Softc) → CanTransfer reg (s.requests r) s → Safe (begun f reg a r s)
  unfolding begun described entered set_error CanTransfer
  begun-Safe r s can =
      let t = entered f reg r s in
      let c = t.requests r in
      let u = described f reg c t in
      bind-Safe (prepared f reg a c u) _ (prepared-Safe c u (λ d there. ground (arith, can d)))
        (λ o e. elim (Bool-cases (is_success o.0)) [
          | inl good ↦ simp good tt
          | inr bad ↦ simp bad tt
        ])

  checked-Safe :
      (r : ℕ) (s : Softc)
      → s.req ≡ none
      → CanTransfer reg (s.requests r) s
      → Safe (checked f reg a r s)
  unfolding checked CanTransfer
  checked-Safe r s e can =
      let (o, h, w) = pre_request-Keeps r s e in
      let can_still : CanTransfer reg (o.1.requests r) o.1 =
        λ d there. ground (arith, can d, w.same_requests, w.same_mode, w.same_room) in
      rw h (ground (arith, begun-Safe r o.1 can_still))

  -- A request always returns, and with the mutex free: for every answer of the card, of the FSdif
  -- layer and of the controller, whatever events arrive while SET_BLOCK_COUNT is awaited, the polling
  -- loops end and nothing panics. No request is in progress, and the data can be transferred: by PIO,
  -- from an aligned buffer, or through a bounce buffer that is large enough.
  pub request-returns :
      (r : ℕ) (s : Softc)
      → s.req ≡ none
      → CanTransfer reg (s.requests r) s
      → (e : Errno) × (t : Softc) × (request f reg a r s ≡ returns (e, t)) × (t.locked ≡ false)
  unfolding request unlock CanTransfer
  request-returns r s idle can =
      let t = record s { locked = true } in
      let (ready, answered) = polling_card_busy-answers a.busy_before sdif_time_out in
      let rest = if is_success ready then checked f reg a r t else returns (ready, t) in
      let (o, h) =
        if-returns (is_success ready) (checked f reg a r t) (ready, t)
          (checked-Safe r t idle can) in
      (
        o.0,
        record o.1 { locked = false },
        bind-returns (polling_card_busy a.busy_before sdif_time_out) _ answered
            ∙ bind-returns rest _ h,
        refl,
      )
