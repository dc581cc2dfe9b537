-- ===== src/SdifV2/Request/Start.antt =====
-- The start of a request: what is in flight after it, and what a failure leaves behind.
use phytium_sdk.Prelude.{
  ℕ, ◌+◌, ◌%◌, ◌≡◌, sym, ap, ◌∙◌, ◌<◌, bit_and, true, false, Option, some, arith, returns, ◌⊎◌, ◌≢◌,
  ◌≤◌, if◌then◌else◌, Safe, bind-Safe, refl, Safe-returns, Bool-cases, inl, inr,
}
use phytium_sdk.SdifV2.Msg.{Header, StartData}
use phytium_sdk.SdifV2.Command.{truth, prepare_command_flags}
use phytium_sdk.SdifV2.Softc.{
  Softc, MmcReg, MmcData, Errno, is_success, success, enxio, err_none, err_no_memory, sdif_time_out,
}
use phytium_sdk.SdifV2.Finish.Order.{IsInFlight}
use phytium_sdk.SdifV2.Finish.Effects.{completions}
use phytium_sdk.SdifV2.Poll.{polling_card_busy}
use phytium_sdk.SdifV2.Request.{
  Answers, described, started, set_error, begun, unlock, pre_request, request,
}
use phytium_sdk.SdifV2.Request.Steps.{
  IsDescribed, entered, request-begun, handled-described, non_removable-described, handled-started,
  started-fields, transfer_started-fields, transfer_refused-fields, entered-transfer, entered-error,
  begun-IsDescribed,
}

-- after a request with data that was started
pub record IsStarted (reg : MmcReg) (r : ℕ) (d : MmcData) (s t : Softc) : Type 0 where
  pub in_flight : IsInFlight r d t
  pub timed : t.timer ≡ true
  pub unlocked : t.locked ≡ false
  pub untold : completions t.log ≡ completions s.log
  pub error_clear : (t.requests r).error ≡ err_none
  pub buffer :
      t.transfer.buf
      ≡ (if truth (d.payload % reg.dma_buf_alignment) then s.aligned_dma_buf else d.payload)
  pub dma_address : t.transfer.buf_dma ≡ t.transfer.buf
  pub bytes :
      truth (bit_and reg.data_write d.flags) ≡ true
      → (i : ℕ) → i < d.len
      → t.mem (t.transfer.buf + i) ≡ s.mem (d.payload + i)

-- after a request that was not started
pub record IsLost (r : ℕ) (s t : Softc) : Type 0 where
  pub untold : completions t.log ≡ completions s.log
  pub untimed : t.timer ≡ s.timer
  pub current : t.req ≡ some r
  pub error_set : (t.requests r).error ≢ err_none
  pub unlocked : t.locked ≡ false

module _ (h : Header) (reg : MmcReg) (a : Answers) (r : ℕ) (s : Softc) where
  begun-IsStarted :
      (d : MmcData) {t : Softc} {e : Errno}
      → a.descriptors_ready ≡ true
      → a.transfer_started ≡ true
      → (s.requests r).transfer ≡ some d
      → begun h reg a r s ≡ returns (e, t)
      → (e ≡ success) × IsStarted reg r d s t
  unfolding set_error
  begun-IsStarted d {t = t} ready goes data_is e =
      let (o, f, rest) = begun-IsDescribed h reg a r s d data_is e in
      let data_there = entered-transfer h reg a r s d data_is in
      let answered : o.0 ≡ success = f.answer ∙ rw ready refl in
      let run : started h reg a r ((entered r s).requests r) o.1 o.2 ≡ returns (_, t) =
        rw answered at rest in
      let (good, free, current, told, mem, transfer) =
        started-fields h reg a r o.2 ((entered r s).requests r) o.1 run in
      let (timed, pending, expects, no_command, no_data, requests) =
        transfer_started-fields h reg a r o.2 ((entered r s).requests r) o.1 d goes data_there
          run in
      (
        good,
        record {
          in_flight = record {
            current = current ∙ f.same_req;
            pending = pending;
            data_expected = expects;
            has_data = rw (requests, f.same_requests) data_there;
            no_command = no_command;
            no_data = no_data;
          };
          timed = timed;
          unlocked = free;
          untold = told ∙ ap completions f.same_log;
          error_clear = rw (requests, f.same_requests) (entered-error h reg a r s);
          buffer = ap (λ x. x.buf) transfer ∙ f.buffer;
          dma_address =
              ap (λ x. x.buf_dma) transfer ∙ f.dma_address ∙ sym (ap (λ x. x.buf) transfer);
          bytes = λ w i k. rw (mem, transfer) (f.bytes w i k);
        },
      )

  undescribed-IsLost :
      (d : MmcData) (t : Softc) {e : Errno} {o : Errno × Option StartData × Softc}
      → a.descriptors_ready ≡ false
      → IsDescribed reg d a.descriptors_ready (entered r s) o
      → o.0 ≡ enxio
      → returns (unlock h reg (enxio, set_error r err_no_memory o.2)) ≡ returns (e, t)
      → (e ≡ (if a.descriptors_ready then success else enxio)) × IsLost r s t
  unfolding set_error unlock
  undescribed-IsLost d t unready f answered e = (
    ground arith,
    record {
      untold = ground (arith, ap completions f.same_log);
      untimed = ground (arith, f.same_timer);
      current = ground (arith, f.same_req);
      error_set = ground arith;
      unlocked = ground arith;
    },
  )

  untransferred-IsLost :
      (d : MmcData) (t : Softc) {e : Errno} {o : Errno × Option StartData × Softc}
      → a.descriptors_ready ≡ true
      → a.transfer_started ≡ false
      → IsDescribed reg d a.descriptors_ready (entered r s) o
      → started h reg a r ((entered r s).requests r) o.1 o.2 ≡ returns (e, t)
      → (e ≡ (if a.descriptors_ready then success else enxio)) × IsLost r s t
  unfolding set_error
  untransferred-IsLost d t {o = o} ready goes f run =
      let (good, free, current, told, mem, transfer) =
        started-fields h reg a r o.2 ((entered r s).requests r) o.1 run in
      let (untimed, error_is) =
        transfer_refused-fields h reg a r o.2 ((entered r s).requests r) o.1 goes run in
      (
        good ∙ rw ready refl,
        record {
          untold = told ∙ ap completions f.same_log;
          untimed = untimed ∙ f.same_timer;
          current = current ∙ f.same_req;
          error_set = ground (arith, error_is);
          unlocked = free;
        },
      )

  begun-IsLost :
      (d : MmcData) {t : Softc} {e : Errno}
      → (a.descriptors_ready ≡ false) ⊎ (a.transfer_started ≡ false)
      → (s.requests r).transfer ≡ some d
      → begun h reg a r s ≡ returns (e, t)
      → (e ≡ (if a.descriptors_ready then success else enxio)) × IsLost r s t
  unfolding set_error
  begun-IsLost d {t = t} failed data_is e =
      let (o, f, rest) = begun-IsDescribed h reg a r s d data_is e in
      elim (Bool-cases a.descriptors_ready) [
        | inr unready ↦
            let answered : o.0 ≡ enxio = f.answer ∙ rw unready refl in
            undescribed-IsLost d t unready f answered (rw answered at rest)
        | inl ready ↦
            let answered : o.0 ≡ success = f.answer ∙ rw ready refl in
            untransferred-IsLost d t ready (ground arith) f (rw answered at rest)
      ]

module _ (h : Header) (reg : MmcReg) (a : Answers) (r : ℕ) (s : Softc) where
  begun-Safe :
      (d : MmcData) (flags : ℕ)
      → (s.requests r).transfer ≡ some d
      → d.len ≤ s.aligned_dma_buf_len
      → prepare_command_flags h (s.requests r).opcode (s.requests r).arg s.non_removable
        ≡ some flags
      → Safe (begun h reg a r s)
  unfolding begun set_error
  begun-Safe d flags data_is fits handled =
      let t = set_error r err_none (record s { locked = true; req = some r; curcmd = some r }) in
      let c = t.requests r in
      let still : prepare_command_flags h c.opcode c.arg s.non_removable ≡ some flags =
        ground (arith, handled) in
      bind-Safe (described h reg a c t) _
        (handled-described h reg a r t c d flags (ground arith) (ground arith) still)
        (λ o e.
          let same = non_removable-described h reg a r t c d (ground arith) e in
          elim (Bool-cases (is_success o.0)) [
            | inl good ↦ rw good (handled-started h reg a r o.2 c o.1 flags (rw same still))
            | inr bad ↦ rw bad tt
          ])

module _ (h : Header) (reg : MmcReg) (a : Answers) (r : ℕ) (s : Softc) where
  -- A request with data is started: it is in flight, its timeout is armed, nothing has been
  -- completed, and the DMA works on the caller's buffer if that is aligned and on the bounce buffer
  -- if not, which holds the bytes of a write: the processor's
  -- address and that given to the device are of the same buffer. The card is ready, the request passes the checks
  -- before it, its data fits the bounce buffer, its command is in the table of the card's kind, and
  -- the FSdifMsg layer accepts the transfer.
  pub request-IsStarted :
      (u : Softc) (d : MmcData) (flags : ℕ)
      → polling_card_busy a.busy_before sdif_time_out ≡ returns success
      → pre_request h reg a r s ≡ returns (success, u)
      → (u.requests r).transfer ≡ some d
      → d.len ≤ u.aligned_dma_buf_len
      → prepare_command_flags h (u.requests r).opcode (u.requests r).arg u.non_removable
        ≡ some flags
      → a.descriptors_ready ≡ true
      → a.transfer_started ≡ true
      → (t : Softc) × (request h reg a r s ≡ returns (success, t)) × IsStarted reg r d u t
  request-IsStarted u d flags ready passed data_is fits handled descriptors transferred =
      let (o, e) =
        Safe-returns (begun h reg a r u) (begun-Safe h reg a r u d flags data_is fits handled) in
      let (good, started_state) = begun-IsStarted h reg a r u d descriptors transferred data_is e in
      (
        o.1,
        request-begun h reg a r s ready passed ∙ e ∙ ap (λ x. returns (x, o.1)) good,
        started_state,
      )

  -- A transfer that the FSdifMsg layer cannot start is lost: the caller gets ENXIO if the
  -- descriptors were not set up, and 0 if the transfer was not started, but the completion callback
  -- is not made and the timeout not armed, while the request stays the current one. The card is
  -- ready, the request passes the checks before it, its data fits the bounce buffer, and its command
  -- is in the table of the card's kind.
  pub request-IsLost :
      (u : Softc) (d : MmcData) (flags : ℕ)
      → polling_card_busy a.busy_before sdif_time_out ≡ returns success
      → pre_request h reg a r s ≡ returns (success, u)
      → (u.requests r).transfer ≡ some d
      → d.len ≤ u.aligned_dma_buf_len
      → prepare_command_flags h (u.requests r).opcode (u.requests r).arg u.non_removable
        ≡ some flags
      → (a.descriptors_ready ≡ false) ⊎ (a.transfer_started ≡ false)
      → (t : Softc) × (request h reg a r s
          ≡ returns (if a.descriptors_ready then success else enxio, t))
        × IsLost r u t
  request-IsLost u d flags ready passed data_is fits handled failed =
      let (o, e) =
        Safe-returns (begun h reg a r u) (begun-Safe h reg a r u d flags data_is fits handled) in
      let (same, lost) = begun-IsLost h reg a r u d failed data_is e in
      (o.1, request-begun h reg a r s ready passed ∙ e ∙ ap (λ x. returns (x, o.1)) same, lost)
