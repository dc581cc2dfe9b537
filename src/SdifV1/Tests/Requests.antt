-- ===== src/SdifV1/Tests/Requests.antt =====
-- Requests and events at concrete inputs.
use phytium_sdk.Prelude.{◌≡◌, ◌+◌, refl, true, false, none, some, inr, arith, returns, ◌>>=◌}
use phytium_sdk.SdifV2.Softc.{Errno, success, enxio, err_none, err_failed}
use phytium_sdk.SdifV2.Poll.{polling_card_busy}
use phytium_sdk.SdifV1.Softc.{Softc}
use phytium_sdk.SdifV1.Softc.{sdif_time_out}
use phytium_sdk.SdifV1.Command.{prepare_raw_cmd}
use phytium_sdk.SdifV1.Command.Raw.{Says, prepare_raw_cmd-Says}
use phytium_sdk.SdifV1.Finish.{command_done, data_done}
use phytium_sdk.SdifV1.Finish.Order.{completions, IsRunning, IsOver, command_done-data_done-IsOver}
use phytium_sdk.SdifV1.Request.{Answers, pre_request, request, launched, submit, armed, count_cmd}
use phytium_sdk.SdifV1.Request.Returns.{CanTransfer, request-returns}
use phytium_sdk.SdifV1.Request.Submit.{IsSubmitted, request-IsSubmitted}
use phytium_sdk.SdifV1.Request.Stale.{launched-completed_by_count}
use phytium_sdk.SdifV1.Tests.Sample.{
  fsdif, fsdif-IsCommandLayout, mmc, write_data, write_command, at_rest, writing, card_status,
  good_answers,
}

prepare_raw_cmd-Says_example :
    Says fsdif mmc at_rest write_command (prepare_raw_cmd fsdif mmc at_rest write_command).0
    × ((prepare_raw_cmd fsdif mmc at_rest write_command).1
        ≡ record at_rest { card_need_init = false })
prepare_raw_cmd-Says_example =
    prepare_raw_cmd-Says fsdif mmc fsdif-IsCommandLayout at_rest write_command (omega arith)

writing-IsRunning : IsRunning 7 write_data writing
writing-IsRunning = record {
  current = refl;
  pending = refl;
  data_expected = refl;
  has_data = refl;
  no_command = refl;
  no_data = refl;
}

command_done-data_done-IsOver_example :
    (command_done mmc none writing ≡ returns (record writing { cmd_done = true }))
    × (data_done mmc none writing ≡ returns (record writing { dto_rcvd = true }))
    × (t : Softc) × ((command_done mmc none writing >>= data_done mmc (some card_status))
        ≡ returns t)
    × ((data_done mmc none writing >>= command_done mmc (some card_status)) ≡ returns t)
    × IsOver mmc 7 write_data card_status writing t
command_done-data_done-IsOver_example =
    command_done-data_done-IsOver mmc none card_status 7 write_data writing writing-IsRunning

can : CanTransfer mmc write_command at_rest
unfolding CanTransfer
can d e = inr (inr (ground (arith, e)))

request-returns_example :
    (e : Errno) × (t : Softc) × (request fsdif mmc good_answers 7 at_rest ≡ returns (e, t))
    × (t.locked ≡ false)
request-returns_example = request-returns fsdif mmc good_answers 7 at_rest refl can

can_locked : CanTransfer mmc write_command (record at_rest { locked = true })
unfolding CanTransfer
can_locked d e = inr (inr (ground (arith, e)))

ready : polling_card_busy good_answers.busy_before sdif_time_out ≡ returns success
unfolding polling_card_busy
ready = refl

passed :
    pre_request fsdif mmc good_answers 7 (record at_rest { locked = true })
    ≡ returns (success, record at_rest { locked = true })
unfolding pre_request
passed = refl

request-IsSubmitted_example :
    (t : Softc) × (request fsdif mmc good_answers 7 at_rest ≡ returns (success, t))
    × IsSubmitted fsdif mmc 7 write_data (record at_rest { locked = true }) t
request-IsSubmitted_example =
    request-IsSubmitted fsdif mmc good_answers 7 write_data at_rest
      (record at_rest { locked = true }) refl ready passed refl can_locked refl refl

-- a layer that refuses the transfer
abbrev refusing : Answers
refusing = record good_answers { transfer_started = false }

launched-completed_by_count_example :
    let t = (launched fsdif mmc refusing 7 writing).1 in
    let u = submit (armed false (record t { cmd_pkg = count_cmd fsdif mmc 2 t })) in
    ((launched fsdif mmc refusing 7 writing).0 ≡ enxio)
    × ((t.requests 7).error ≡ err_failed)
    × (completions t.log ≡ completions writing.log)
    × (v : Softc) × (command_done mmc (some card_status) u ≡ returns v)
    × (completions v.log ≡ 1 + completions writing.log)
    × ((v.requests 7).error ≡ err_none)
    × (v.req ≡ none)
launched-completed_by_count_example =
    launched-completed_by_count fsdif mmc refusing 7 2 card_status writing refl refl
