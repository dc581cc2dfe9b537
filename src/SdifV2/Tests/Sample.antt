-- ===== src/SdifV2/Tests/Sample.antt =====
-- The headers and a driver at rest, with one read request.
use phytium_sdk.Prelude.{◌%◌, ◌^◌, true, false, [], none, some}
use phytium_sdk.SdifV2.Msg.{Header, SetIos, legacy, width_1, power_on, voltage_330, StartData}
use phytium_sdk.SdifV2.Command.Layout.{IsCommandRegister, IsResponseFlags}
use phytium_sdk.SdifV2.Softc.{
  Softc, MmcData, MmcCommand, MmcIos, MmcHost, MmcReg, Response, err_none, no_response,
}
use phytium_sdk.SdifV2.Request.{Answers}
use phytium_sdk.SdifV2.Host.{MsgLayer}
use native.Mathlib.Omega.{arith}
use mathlib.Core.Path.{refl}

abbrev pub header : Header
header = record {
  rsp_spi_r1 = 0x80;
  rsp_spi_r1b = 0x480;
  rsp_spi_r2 = 0x180;
  rsp_spi_r7 = 0x280;
  rsp_none = 0x0;
  rsp_r1 = 0x15;
  rsp_r1b = 0x1d;
  rsp_r2 = 0x7;
  rsp_r3 = 0x1;
  rsp_r6 = 0x15;
  rsp_r7 = 0x15;
  cmd_ac = 0x0;
  cmd_adtc = 0x20;
  cmd_bc = 0x40;
  cmd_bcr = 0x60;
  rsp_present = 0x1;
  rsp_136 = 0x2;
  rsp_crc = 0x4;
  indx_set = λ c. c % 64;
  init = 2 ^ 15;
  resp_exp = 2 ^ 6;
  resp_long = 2 ^ 7;
  resp_crc = 2 ^ 8;
  volt_switch = 2 ^ 28;
  dat_exp = 2 ^ 9;
  dat_write = 2 ^ 10;
  start = 2 ^ 31;
  data_write = 0x100;
  data_read = 0x200;
  block_rw_adtc = 0;
}

pub header-IsCommandRegister : IsCommandRegister header
header-IsCommandRegister = record {
  index_low = λ c h. omega arith;
  resp_exp_bit = refl;
  resp_long_bit = refl;
  resp_crc_bit = refl;
  dat_exp_bit = refl;
  dat_write_bit = refl;
  init_bit = refl;
  volt_switch_bit = refl;
  start_bit = refl;
}

pub header-IsResponseFlags : IsResponseFlags header
header-IsResponseFlags = omega arith

abbrev pub reg : MmcReg
reg = record {
  data_write = 0x100;
  data_read = 0x200;
  rsp_136 = 0x2;
  rsp_present = 0x1;
  set_block_count = 23;
  read_multiple_block = 18;
  write_multiple_block = 25;
  app_cmd = 55;
  sd_send_op_cond = 41;
  sd_send_if_cond = 8;
  bustest_w = 19;
  bustest_r = 14;
  set_blocklen = 16;
  sector_size = 512;
  dma_buf_alignment = 512;
}

-- a read of one block into a buffer that is not aligned
abbrev pub read_data : MmcData
read_data = record { flags = 0x200; len = 512; payload = 1000 }

abbrev pub read_command : MmcCommand
read_command = record {
  opcode = 17;
  arg = 5;
  flags = 0x15;
  resp = no_response;
  error = err_none;
  transfer = some read_data;
}

abbrev pub status_command : MmcCommand
status_command = record read_command { opcode = 13; transfer = none }

abbrev pub ios : MmcIos
ios = record {
  clock = 400000;
  vdd = 20;
  vccq = 0;
  bus_mode = 2;
  chip_select = 0;
  bus_width = 0;
  power_mode = 2;
  timing = 0;
}

abbrev pub host : MmcHost
host = record {
  ios = ios;
  f_min = 400000;
  f_max = 50000000;
  host_ocr = 0x300000;
  ocr = 0;
  mode = 1;
  caps = 1;
}

abbrev pub set_ios : SetIos
set_ios = record {
  ios_clock = 400000;
  ios_timing = legacy;
  ios_bus_width = width_1;
  ios_power_mode = power_on;
}

abbrev no_data : StartData
no_data = record {
  cmd_arg = 0;
  raw_cmd = 0;
  data_flags = 0;
  adtc_type = 0;
  adma_addr = 0;
  mrq_data_blksz = 0;
  mrq_data_blocks = 0;
}

abbrev pub rest : Softc
rest = record {
  locked = false;
  non_removable = false;
  cur_ios = set_ios;
  cur_volt = voltage_330;
  req = none;
  curcmd = none;
  dto_rcvd = false;
  cmd_done = false;
  req_pending = false;
  expect_data = false;
  timer = false;
  response = no_response;
  transfer = record { datainfo = no_data; buf = 0; buf_dma = 0 };
  aligned_dma_buf = 4096;
  aligned_dma_buf_len = 2097152;
  auto_stop = false;
  host = host;
  curios = ios;
  child = false;
  bus_busy = 0;
  mem = λ a. a % 256;
  requests = λ r. read_command;
  log = [];
}

-- the read request, in flight
abbrev pub in_flight : Softc
in_flight = record rest {
  req = some 7;
  curcmd = some 7;
  req_pending = true;
  expect_data = true;
  timer = true;
  transfer = record { datainfo = no_data; buf = 4096; buf_dma = 4096 };
}

-- a request without data, in flight
abbrev pub in_flight_status : Softc
in_flight_status = record in_flight { expect_data = false; requests = λ r. status_command }

abbrev pub response : Response
response = record { resp0 = 0x900; resp1 = 1; resp2 = 2; resp3 = 3 }

abbrev pub answers : Answers
answers = record {
  busy_before = λ k. false;
  busy_after_count = λ k. false;
  count_started = true;
  count_irqs = λ k. [];
  descriptors_ready = true;
  transfer_started = true;
}

-- a layer that accepts and keeps every setting
abbrev pub layer : MsgLayer
layer = record { set_voltage = λ cur v. some v; set_ios = λ cur set. some set }
