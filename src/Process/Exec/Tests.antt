-- ===== src/Process/Exec/Tests.antt =====
-- A disk whose root directory names one file of 48 bytes, with an ELF header that places eight bytes.
use amaterasu.Base.{
  ℕ, ◌+◌, ◌^◌, ◌≡◌, ◌<◌, ◌≤◌, ◌⊎◌, inr, refl, arith, true, [], none, some, ◌==◌, if◌then◌else◌,
}
use amaterasu.Util.{strncmp, strnlength}
use amaterasu.Util.Bytes.{Apart}
use amaterasu.X86.Ports.{Ports}
use amaterasu.KHeap.{kfree}
use amaterasu.KHeap.Tests.{empty_heap, heap1, block1}
use amaterasu.Ata.{
  Disk, ata_request_queue_push, ata_request_queue_front, ata_request_queue_pop,
  ata_polling_until_ready, poll_from, send_read, ata_send_request, transfer, complete_read,
  ata_read,
}
use amaterasu.Ata.Requests.{new_request}
use amaterasu.Fat.{File, Partition, get_file_info, read_file, search_entries}
use amaterasu.Process.Kernel.{ProcessMemory}
use amaterasu.Process.Exec.{Machine, entered, sys_exec}
use amaterasu.Process.Exec.Load.{IsLoaded, entry_point, text_size, source, sys_exec-IsLoaded}

-- The device counts the words read: 256 of the directory, and then those of the file.
abbrev drive : Ports
drive = record {
  Device = ℕ;
  in_byte = λ port d. (8, d);
  in_short = λ port d. (
    if d == 0
        then 65
        else if d == 14
        then 48
        else if d == 268
        then 0x1000
        else if d == 276
        then 8
        else 0,
    d + 1,
  );
  out_byte = λ port v d. d;
}

abbrev no_switch : Disk drive → Disk drive
no_switch s = s

-- The file name "A" at 10, and the buffer of the directory at 20000.
abbrev machine : Machine drive
machine = record {
  disk = record {
    device = 0;
    queue = record { head_index = 0; size = 0; queue_body = λ i. new_request 0 0 0 0 0 };
    memory = λ a. if a == 10 then 65 else 0;
    printed = [];
    current_process = 1;
  };
  heap = empty_heap;
  tss = [];
}

abbrev partition : Partition
partition = record {
  start_lba = 0;
  numbers_of_sectors = 0;
  sectors_of_cluster = 1;
  numbers_of_reserved_sectors = 0;
  numbers_of_fats = 2;
  sectors_of_fat = 1;
  fats = λ i. 0;
  numbers_of_root_dir_entries = 16;
  root_dir_start_lba = 3;
  sectors_of_root_dir = 1;
  data_start_lba = 4;
}

abbrev memory_of_process : ProcessMemory
memory_of_process = record {
  user_stack_page_frame = 0x30000;
  kernel_stack_page_frame = 0x31000;
  text_segment_page_frame = 0x32000;
  l4_page_table_base = 0x33000;
}

abbrev disk1 : Disk drive
disk1 = elim (get_file_info drive no_switch 3 10 20000 true partition machine.disk) [
  | none ↦ machine.disk
  | some r ↦ r.1
]

abbrev file : File
file = record { start = 2; size = 48 }

found :
    get_file_info drive no_switch 3 10 20000 true partition machine.disk ≡ some (some file, disk1)
unfolding get_file_info ata_read ata_request_queue_push ata_request_queue_front
    ata_request_queue_pop ata_polling_until_ready poll_from send_read ata_send_request transfer
    complete_read search_entries strncmp strnlength
found = refl

abbrev disk2 : Disk drive
disk2 = elim (read_file drive no_switch 3 file 4096 true disk1) [ none ↦ disk1 | some r ↦ r.1 ]

file_read : read_file drive no_switch 3 file 4096 true disk1 ≡ some (some 48, disk2)
unfolding read_file get_file_info ata_read ata_request_queue_push ata_request_queue_front
    ata_request_queue_pop ata_polling_until_ready poll_from send_read ata_send_request transfer
    complete_read search_entries strncmp strnlength
file_read = refl

-- The fields of the program's headers.
abbrev start : ℕ
start = entry_point 0x31f60 4096 memory_of_process disk2.memory

abbrev size : ℕ
size = text_size 0x31f60 4096 memory_of_process disk2.memory

abbrev from : ℕ
from = source 0x31f60 4096 memory_of_process disk2.memory

fields : (start ≡ 0x1000) × (size ≡ 8) × (from ≡ 4096)
unfolding read_file get_file_info ata_read ata_request_queue_push ata_request_queue_front
    ata_request_queue_pop ata_polling_until_ready poll_from send_read ata_send_request transfer
    complete_read search_entries strncmp strnlength
fields = (refl, refl, refl)

start_small : start < 2 ^ 64
start_small = rw fields.0 (omega arith)

text-Apart : Apart 0x32000 from size
text-Apart = rw (fields.1, fields.2) (inr (omega arith))

frame_apart : (0x32000 + size ≤ 0x31f60) ⊎ (0x31f60 + 160 ≤ 0x32000)
frame_apart = inr (omega arith)

sys_exec-IsLoaded_example :
    (m' : Machine drive) × (sys_exec drive no_switch 3 0x31f60 10 20000 partition memory_of_process
        machine
      ≡ some (entered 0x31f60, m'))
    × IsLoaded 0x31f60 4096 memory_of_process disk2.memory m'.disk.memory
    × (m'.heap ≡ kfree 4096 heap1)
sys_exec-IsLoaded_example =
    sys_exec-IsLoaded drive no_switch 3 0x31f60 10 20000 partition memory_of_process machine disk1
      disk2 file heap1 4096 found block1 (omega arith) file_read start_small text-Apart frame_apart
