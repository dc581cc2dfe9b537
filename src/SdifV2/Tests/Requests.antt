-- ===== src/SdifV2/Tests/Requests.antt =====
-- Requests, interrupts and the polling loops at concrete inputs.
use phytium_sdk.Prelude.{
  ℕ, ◌≡◌, ◌+◌, ◌≤◌, refl, true, false, List, [], ◌∷◌, some, inr, arith, returns, ◌>>=◌, result_of,
  ◌==◌, if◌then◌else◌,
}
use phytium_sdk.SdifV2.Command.{
  prepare_command_flags, prepare_sd_command_flags, prepare_raw_command, raw_word, with_init,
  with_response, with_voltage, with_transfer,
}
use phytium_sdk.SdifV2.Command.Raw.{Decodes, prepare_raw_command-Decodes}
use phytium_sdk.SdifV2.Command.Response.{Asks, prepare_command_flags-Asks}
use phytium_sdk.SdifV2.Softc.{Softc, success, ebusy, enxio, sdif_time_out, err_timeout, err_none}
use phytium_sdk.SdifV2.Finish.{
  Irq, irq_command_done, irq_data_done, irq_error, irq_card, command_done, data_done, timeout,
  interrupt, error_occurred, handle_card_present, finish_command,
}
use phytium_sdk.SdifV2.Finish.Order.{IsInFlight, IsCompleted, command_done-data_done-IsCompleted}
use phytium_sdk.SdifV2.Finish.Effects.{
  completions, in_progress, deliver_bound, timeout-command_done_twice,
}
use phytium_sdk.SdifV2.Poll.{deliver, polling_card_busy, polling_request_done}
use phytium_sdk.SdifV2.Poll.Total.{Settled, polling_card_busy_total, polling_request_done-Settled}
use phytium_sdk.SdifV2.Request.{Answers, pre_request, request}
use phytium_sdk.SdifV2.Request.Start.{IsStarted, IsLost, request-IsStarted, request-IsLost}
use phytium_sdk.SdifV2.Request.Lock.{unlocked-request}
use phytium_sdk.SdifV2.Tests.Sample.{
  header, header-IsCommandRegister, header-IsResponseFlags, reg, read_data, rest, in_flight,
  in_flight_status, response, answers,
}

in_flight-IsInFlight : IsInFlight 7 read_data in_flight
in_flight-IsInFlight = record {
  current = refl;
  pending = refl;
  data_expected = refl;
  has_data = refl;
  no_command = refl;
  no_data = refl;
}

ready : polling_card_busy answers.busy_before sdif_time_out ≡ returns success
ready = (polling_card_busy_total answers.busy_before sdif_time_out).0 0 (omega arith) refl

passed : pre_request header reg answers 7 rest ≡ returns (success, rest)
unfolding pre_request
passed = refl

read_flags : prepare_command_flags header 17 5 false ≡ some 0xb5
unfolding prepare_command_flags prepare_sd_command_flags
read_flags = refl

command_done-data_done-IsCompleted_example :
    (command_done reg response in_flight
      ≡ returns (record in_flight { response = response; cmd_done = true }))
    × (data_done reg in_flight ≡ returns (record in_flight { dto_rcvd = true }))
    × (t : Softc) × ((command_done reg response in_flight >>= data_done reg) ≡ returns t)
    × IsCompleted reg 7 read_data response in_flight t
command_done-data_done-IsCompleted_example =
    command_done-data_done-IsCompleted reg response 7 read_data in_flight in_flight-IsInFlight

request-IsStarted_example :
    (t : Softc) × (request header reg answers 7 rest ≡ returns (success, t))
    × IsStarted reg 7 read_data rest t
request-IsStarted_example =
    request-IsStarted header reg answers 7 rest rest read_data 0xb5 ready passed refl (omega arith)
      read_flags refl refl

abbrev refused : Answers
refused = record answers { transfer_started = false }

refused_passed : pre_request header reg refused 7 rest ≡ returns (success, rest)
unfolding pre_request
refused_passed = refl

request-IsLost_example :
    (t : Softc) × (request header reg refused 7 rest ≡ returns (success, t)) × IsLost 7 rest t
request-IsLost_example =
    request-IsLost header reg refused 7 rest rest read_data 0xb5 ready refused_passed refl
      (omega arith) read_flags (inr refl)

-- a request that the card never lets through returns with the mutex free
unlocked-request_example : rest.locked ≡ false
unlocked-request_example =
    unlocked-request header reg (record answers { busy_before = λ k. true }) 7 rest
      {o = (enxio, rest)} refl (unfold request in rw never)
  where
    never : polling_card_busy (λ k. true) sdif_time_out ≡ returns ebusy
    never = (polling_card_busy_total (λ k. true) sdif_time_out).1 (λ j h. refl)

abbrev storm : List Irq
storm = irq_data_done ∷ irq_error ∷ irq_command_done response ∷ irq_card false true ∷ []

abbrev after_storm : Softc
after_storm = result_of rest (deliver reg storm in_flight)

storm_delivered : deliver reg storm in_flight ≡ returns after_storm
unfolding deliver interrupt command_done data_done error_occurred handle_card_present finish_command
storm_delivered = refl

deliver_bound_example :
    completions after_storm.log + in_progress after_storm.req ≤ completions in_flight.log + 1
deliver_bound_example = deliver_bound reg storm in_flight {t = after_storm} storm_delivered

timeout-command_done_twice_example :
    (u : Softc) × (t : Softc) × (timeout in_flight_status ≡ returns u)
    × ((u.requests 7).error ≡ err_timeout)
    × (command_done reg response u ≡ returns t)
    × ((t.requests 7).error ≡ err_none)
    × (completions t.log ≡ 2 + completions in_flight_status.log)
timeout-command_done_twice_example =
    timeout-command_done_twice reg response 7 in_flight_status refl refl refl refl

polling_request_done-Settled_example :
    Settled (polling_request_done reg (λ k. if k == 2 then storm else []) 10 in_flight)
polling_request_done-Settled_example =
    polling_request_done-Settled reg (λ k. if k == 2 then storm else []) 10 in_flight

-- the read of block 5, as command 17 of a removable card
read_raw : prepare_raw_command header 17 5 false true false ≡ some 0x80000351
unfolding prepare_raw_command prepare_command_flags prepare_sd_command_flags raw_word with_init
    with_response with_voltage with_transfer
read_raw = refl

prepare_raw_command-Decodes_example :
    (flags : ℕ) × (prepare_command_flags header 17 5 false ≡ some flags)
    × Decodes header 17 false true false flags 0x80000351
prepare_raw_command-Decodes_example =
    prepare_raw_command-Decodes header header-IsCommandRegister 17 5 false true false (omega arith)
      read_raw

prepare_command_flags-Asks_example : Asks header false 17 5 0xb5
prepare_command_flags-Asks_example =
    prepare_command_flags-Asks header header-IsResponseFlags 17 5 false read_flags
