-- ===== src/SdifV1/Tests/Sample.antt =====
-- The registers and a driver at rest, with one read request.
use phytium_sdk.Prelude.{◌%◌, ◌^◌, refl, true, false, [], none, some, arith}
use phytium_sdk.SdifV2.Softc.{
  MmcData, MmcCommand, MmcIos, MmcHost, MmcReg, Response, err_none, no_response,
}
use phytium_sdk.SdifV1.Softc.{FsdifReg, Softc, idma_trans_mode}
use phytium_sdk.SdifV1.Command.Raw.{IsCommandLayout}
use phytium_sdk.SdifV1.Request.{Answers}
use phytium_sdk.SdifV1.Host.{Speeds, Clocks}

abbrev pub fsdif : FsdifReg
fsdif = record {
  indx_set = λ c. c % 64;
  stop_abort = 2 ^ 14;
  volt_switch = 2 ^ 28;
  cmd_init = 2 ^ 15;
  resp_exp = 2 ^ 6;
  resp_long = 2 ^ 7;
  resp_crc = 2 ^ 8;
  dat_exp = 2 ^ 9;
  dat_write = 2 ^ 10;
  send_stop = 2 ^ 12;
  use_hold_reg = 2 ^ 29;
  switch_voltage = 11;
  go_inactive_state = 15;
  rsp_crc = 0x4;
  block_size = 512;
  max_fifo_cnt = 2048;
}

pub fsdif-IsCommandLayout : IsCommandLayout fsdif
fsdif-IsCommandLayout = record {
  index_low = λ c h. omega arith;
  resp_exp_bit = refl;
  resp_long_bit = refl;
  resp_crc_bit = refl;
  dat_exp_bit = refl;
  dat_write_bit = refl;
  send_stop_bit = refl;
  stop_abort_bit = refl;
  init_bit = refl;
  volt_switch_bit = refl;
  use_hold_bit = refl;
}

abbrev pub mmc : MmcReg
mmc = record {
  data_write = 0x100;
  data_read = 0x200;
  rsp_136 = 0x2;
  rsp_present = 0x1;
  set_block_count = 23;
  read_multiple_block = 18;
  write_multiple_block = 25;
  app_cmd = 55;
  sd_send_op_cond = 41;
  sd_send_if_cond = 8;
  bustest_w = 19;
  bustest_r = 14;
  set_blocklen = 16;
  sector_size = 512;
  dma_buf_alignment = 512;
}

-- a write of two blocks from a buffer that is not aligned
abbrev pub write_data : MmcData
write_data = record { flags = 0x100; len = 1024; payload = 1000 }

abbrev pub write_command : MmcCommand
write_command = record {
  opcode = 24;
  arg = 5;
  flags = 0x15;
  resp = no_response;
  error = err_none;
  transfer = some write_data;
}

abbrev pub wanted : MmcIos
wanted = record {
  clock = 25000000;
  vdd = 20;
  vccq = 0;
  bus_mode = 2;
  chip_select = 0;
  bus_width = 2;
  power_mode = 1;
  timing = 1;
}

abbrev pub bus_host : MmcHost
bus_host = record {
  ios = wanted;
  f_min = 400000;
  f_max = 50000000;
  host_ocr = 0x300000;
  ocr = 0;
  mode = 1;
  caps = 1;
}

abbrev pub at_rest : Softc
at_rest = record {
  locked = false;
  cfg_non_removable = false;
  non_removable = false;
  trans_mode = idma_trans_mode;
  card_need_init = true;
  req = none;
  curcmd = none;
  dto_rcvd = false;
  cmd_done = false;
  req_pending = false;
  expect_data = false;
  timer = false;
  cmd_pkg = record { cmdidx = 0; cmdarg = 0; rawcmd = 0; response = no_response; has_data = false };
  dat_pkg = record { buf = 0; buf_dma = 0; blksz = 0; blkcnt = 0; datalen = 0 };
  aligned_dma_buf = 8192;
  aligned_dma_buf_len = 2093056;
  use_hold = 1;
  pre_fix_timing = 1;
  auto_stop = false;
  card_clock = 0xff;
  power_mode = 0xff;
  bus_width = 0xff;
  voltage = 0;
  cur_timing = none;
  host = bus_host;
  child = false;
  bus_busy = 0;
  mem = λ a. a % 256;
  requests = λ r. write_command;
  log = [];
}

-- the write, of which neither event has arrived
abbrev pub writing : Softc
writing = record at_rest { req = some 7; curcmd = some 7; req_pending = true; expect_data = true }

abbrev pub card_status : Response
card_status = record { resp0 = 0x900; resp1 = 1; resp2 = 2; resp3 = 3 }

abbrev pub good_answers : Answers
good_answers = record {
  busy_before = λ k. false;
  busy_after_count = λ k. false;
  count_started = true;
  count_irqs = λ k. [];
  descriptors_ready = true;
  transfer_started = true;
}

abbrev pub speeds : Speeds
speeds = record {
  speed_400_khz = 400000;
  speed_25_mhz = 25000000;
  speed_26_mhz = 26000000;
  speed_50_mhz = 50000000;
  speed_52_mhz = 52000000;
  speed_66_mhz = 66000000;
  speed_100_mhz = 100000000;
}

-- a layer that sets every clock
abbrev pub clocks : Clocks
clocks = record { by_calc = λ ddr hz. true; by_dict = λ ddr t hz. true }
