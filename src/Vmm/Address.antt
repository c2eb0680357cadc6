-- ===== src/Vmm/Address.antt =====
-- pa3_3/VMM2/globals.h: the sizes, and the helpers that split a 16-bit address into a page (or
-- frame) number and an offset. The traces that the helpers write are left out.
pub mod Split
use Prim.Native.Nat.{bit_and}
use unix_sys_prog.Common.{ℕ, ◌+◌, ◌*◌, ◌/◌, ◌%◌, ◌^◌}

abbrev pub status_success : ℕ
status_success = 0

abbrev pub page_size : ℕ
page_size = 256

abbrev pub frame_size : ℕ
frame_size = 256

abbrev pub number_of_page_in_vm : ℕ
number_of_page_in_vm = 256

abbrev pub number_of_tlb_entries : ℕ
number_of_tlb_entries = 16

-- `log2(FrameSize)` and `log2(PageSize)`
abbrev pub num_bits_for_frame_offset : ℕ
num_bits_for_frame_offset = 8

abbrev pub num_bits_for_page_offset : ℕ
num_bits_for_page_offset = 8

abbrev virtual_address_offset_mask : ℕ
virtual_address_offset_mask = 0xFF

abbrev physical_address_offset_mask : ℕ
physical_address_offset_mask = 0xFF

abbrev page_num_mask : ℕ
page_num_mask = 0xFF00

abbrev frame_num_maks : ℕ
frame_num_maks = 0xFF00

unfoldable pub get_offset_from_physical_address : ℕ → ℕ
get_offset_from_physical_address address = bit_and address physical_address_offset_mask

unfoldable pub get_offset_from_logical_address : ℕ → ℕ
get_offset_from_logical_address address = bit_and address virtual_address_offset_mask

-- The result is stored in a `uint8_t`.
unfoldable pub get_frame_number_from_physical_address : ℕ → ℕ
get_frame_number_from_physical_address address =
    bit_and address frame_num_maks / 2 ^ num_bits_for_frame_offset % 256

unfoldable pub get_page_number_from_logical_address : ℕ → ℕ
get_page_number_from_logical_address address =
    bit_and address page_num_mask / 2 ^ num_bits_for_page_offset % 256

-- `(frameno << numBitsForFrameOffset) + offset`, stored in a `uint16_t`.
unfoldable pub join_physical_address : ℕ → ℕ → ℕ
join_physical_address frameno offset = (frameno * 2 ^ num_bits_for_frame_offset + offset) % 2 ^ 16
