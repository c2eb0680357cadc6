-- ===== src/Vmm/Address/Split.antt =====
-- The masks and shifts of globals.h, as quotient and remainder.
use unix_sys_prog.Common.{ℕ, ◌+◌, ◌*◌, ◌/◌, ◌%◌, ◌<◌, ◌≡◌, arith}
use unix_sys_prog.Common.Bits.{bit_and-low_byte, bit_and-high_byte}
use unix_sys_prog.Vmm.Address.{
  get_offset_from_physical_address, get_offset_from_logical_address,
  get_frame_number_from_physical_address, get_page_number_from_logical_address,
  join_physical_address,
}

pub logical_offset_lem : (a : ℕ) → get_offset_from_logical_address a ≡ a % 256
unfolding get_offset_from_logical_address
logical_offset_lem a = bit_and-low_byte a

pub page_number_lem : (a : ℕ) → get_page_number_from_logical_address a ≡ a / 256 % 256
unfolding get_page_number_from_logical_address
page_number_lem a = omega (arith, bit_and-high_byte a)

pub logical_offset-lt : (a : ℕ) → get_offset_from_logical_address a < 256
logical_offset-lt a = omega (arith, logical_offset_lem a)

pub page_number-lt : (a : ℕ) → get_page_number_from_logical_address a < 256
page_number-lt a = omega (arith, page_number_lem a)

pub physical_offset_lem : (a : ℕ) → get_offset_from_physical_address a ≡ a % 256
unfolding get_offset_from_physical_address
physical_offset_lem a = bit_and-low_byte a

pub frame_number_lem : (a : ℕ) → get_frame_number_from_physical_address a ≡ a / 256 % 256
unfolding get_frame_number_from_physical_address
frame_number_lem a = omega (arith, bit_and-high_byte a)

-- A 16-bit logical address is its page number times the page size, plus its offset: no two
-- addresses have both parts in common.
pub split_logical_address :
    (a : ℕ)
    → a < 65536
    → get_page_number_from_logical_address a * 256 + get_offset_from_logical_address a ≡ a
split_logical_address a h = omega (arith, page_number_lem a, logical_offset_lem a)

-- The physical address that is made of an 8-bit frame number and an 8-bit offset fits 16 bits, and
-- splits into the same frame number and offset.
pub split-join_physical_address :
    (frameno offset : ℕ)
    → frameno < 256
    → offset < 256
    → (get_frame_number_from_physical_address (join_physical_address frameno offset) ≡ frameno)
      × (get_offset_from_physical_address (join_physical_address frameno offset) ≡ offset)
      × (join_physical_address frameno offset ≡ frameno * 256 + offset)
unfolding join_physical_address
split-join_physical_address f o hf ho =
    let whole : join_physical_address f o ≡ f * 256 + o = omega arith in
    (
      omega (arith, frame_number_lem (join_physical_address f o)),
      omega (arith, physical_offset_lem (join_physical_address f o)),
      whole,
    )
