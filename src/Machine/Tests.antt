-- ===== src/Machine/Tests.antt =====
-- A machine with one process, no disk and a timer of plain words.
use amaterasu.Base.{◌%◌, []}
use amaterasu.Pic.Tests.{two_masks, all_masked}
use amaterasu.Hpet.Tests.{plain}
use amaterasu.Interrupt.Tests.{no_interrupts}
use amaterasu.Ata.Requests.{new_request}
use amaterasu.Process.Fork.Tests.{one_process}
use amaterasu.Machine.{Machine}

abbrev pub small_machine : Machine two_masks plain
small_machine = record {
  screen = record {
    pixels = λ a. record { b = 0; g = 0; r = 0; reserved = 0 };
    size = 0;
    horizontal_resolution = 0;
    vertical_resolution = 0;
    cursor_x = 0;
    cursor_y = 0;
  };
  kernel = one_process;
  segments = record { gdt = []; gdtr0 = 0; gdtr1 = 0; tss = []; task_register = 0 };
  interrupts = no_interrupts;
  disk = record {
    device = all_masked;
    queue = record { head_index = 0; size = 0; queue_body = λ i. new_request 0 0 0 0 0 };
    memory = λ a. a % 256;
    printed = [];
    current_process = 100;
  };
  timer = λ a. 0;
  hpet = record { hpet_base_address = 0; hpet_clk_period = 0 };
  xsdt = 0;
  drives = λ i. record {
    is_valid = 0;
    id = 0;
    partition_tables = λ j. record { is_valid = 0; start_lba = 0; numbers_of_sectors = 0 };
  };
  partition = record {
    start_lba = 0;
    numbers_of_sectors = 0;
    sectors_of_cluster = 0;
    numbers_of_reserved_sectors = 0;
    numbers_of_fats = 0;
    sectors_of_fat = 0;
    fats = λ i. 0;
    numbers_of_root_dir_entries = 0;
    root_dir_start_lba = 0;
    sectors_of_root_dir = 0;
    data_start_lba = 0;
  };
  cr3 = 0;
  interrupt_flag = 0;
}
