-- ===== src/Memory.antt =====
-- Physical memory, kernel/memory.c: the bitmap of page frames from `set_frame` to `test_frame`,
-- `palloc`, `pfree`, and the early allocator from `kmalloc_int` to `kmalloc`.
--
-- `frame_bitmap` is a list of bytes. It has `TOTAL_FRAMES / 8` of them, so that `TOTAL_FRAMES` is 8
-- times its length. An address past the end of memory reads 0 and writes nothing, where the source
-- would leave the array.
pub mod Bitmap
pub mod Frames
pub mod Early
mod Tests
use fastsystem.Prelude.{
  ℕ, zero, suc, ◌+◌, ◌-◌, ◌*◌, ◌/◌, ◌%◌, ◌^◌, bit_and, bit_or, Bool, true, false, not, ◌&&◌, Option,
  none, some, List, ◌==◌, if◌then◌else◌, u8, u32, length, get_or, set,
}

abbrev pub page_size : ℕ
page_size = 4096

pub set_frame : List ℕ → ℕ → List ℕ
set_frame bitmap frame_addr =
    let frame = frame_addr / page_size in
    set bitmap (frame / 8) (u8 (bit_or (get_or bitmap (frame / 8) 0) (2 ^ (frame % 8))))

-- `~x` of an `int` has the bits of `2 ^ 32 - 1 - x`.
pub clear_frame : List ℕ → ℕ → List ℕ
clear_frame bitmap frame_addr =
    let frame = frame_addr / page_size in
    set bitmap (frame / 8)
      (u8 (bit_and (get_or bitmap (frame / 8) 0) (2 ^ 32 - 1 - 2 ^ (frame % 8))))

pub test_frame : List ℕ → ℕ → Bool
test_frame bitmap frame_addr =
    let frame = frame_addr / page_size in
    not (bit_and (get_or bitmap (frame / 8) 0) (2 ^ (frame % 8)) == 0)

-- The `for` of `palloc` from frame `i`, with `left` frames to go.
pub palloc_loop : ℕ → List ℕ → ℕ → ℕ × List ℕ
palloc_loop zero bitmap i = (0, bitmap)
palloc_loop (suc left) bitmap i =
    let rest = palloc_loop left bitmap (i + 1) in
    if not (test_frame bitmap (u32 (i * page_size)))
    then (u32 (i * page_size), set_frame bitmap (u32 (i * page_size)))
    else rest

pub palloc : List ℕ → ℕ × List ℕ
palloc bitmap = palloc_loop (8 * length bitmap) bitmap 0

pub pfree : List ℕ → ℕ → List ℕ
pfree bitmap physaddr = clear_frame bitmap physaddr

-- What `kmalloc_int` returns, what it leaves in `*pa` if `pa` is not NULL, and the new
-- `placement_address`.
pub record Placement : Type 0 where
  pub result : ℕ
  pub pa : Option ℕ
  pub placement_address : ℕ

pub kmalloc_int : ℕ → ℕ → ℕ → Bool → Placement
kmalloc_int placement_address sz a wants_pa =
    let high = bit_and placement_address 0xFFFFF000 in
    let m = if a == 1 && not (high == 0) then u32 (high + page_size) else placement_address in
    record { result = m; pa = if wants_pa then some m else none; placement_address = u32 (m + sz) }

pub kmalloc_a : ℕ → ℕ → Placement
kmalloc_a placement_address sz = kmalloc_int placement_address sz 1 false

pub kmalloc_ap : ℕ → ℕ → Bool → Placement
kmalloc_ap placement_address sz wants_pa = kmalloc_int placement_address sz 1 wants_pa

pub kmalloc_p : ℕ → ℕ → Bool → Placement
kmalloc_p placement_address sz wants_pa = kmalloc_int placement_address sz 0 wants_pa

pub kmalloc : ℕ → ℕ → Placement
kmalloc placement_address sz = kmalloc_int placement_address sz 0 false
