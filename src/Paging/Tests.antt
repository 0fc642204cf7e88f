-- ===== src/Paging/Tests.antt =====
-- A page fault on a blank screen.
use amaterasu.Base.{ℕ, ◌+◌, ◌%◌, ◌≡◌, some, arith}
use amaterasu.Util.{u64}
use amaterasu.Graphic.{Font, Screen}
use amaterasu.Graphic.Report.{print, text_of}
use amaterasu.Paging.Fault.{page_fault_handler, fault_report, page_fault_handler_lem}

abbrev blank_font : Font
blank_font c y x = 0

abbrev blank_screen : Screen
blank_screen = record {
  pixels = λ a. record { b = 0; g = 0; r = 0; reserved = 0 };
  size = 0;
  horizontal_resolution = 0;
  vertical_resolution = 0;
  cursor_x = 0;
  cursor_y = 0;
}

abbrev words : ℕ → ℕ
words a = 22

-- The error code 22: a write by user code that is an instruction fetch, at a page that is not present.
page_fault_handler_lem_example :
    page_fault_handler blank_font (λ left k. 0) words 0xffffffffff 4096 blank_screen
    ≡ some (
        print blank_font
          (text_of (fault_report 0xffffffffff (words ((4096 + 72) % u64))))
          blank_screen)
page_fault_handler_lem_example =
    page_fault_handler_lem blank_font (λ left k. 0) words 0xffffffffff 4096 blank_screen
      (omega arith)
