-- ===== src/Heap.antt =====
-- kernel/memory.c: the bump allocator.
pub mod Laws
use os_u.Prelude.{ℕ, ◌+◌, ◌-◌, ◌*◌, ◌/◌, ◌%◌, ◌^◌, Option, none, some, ltb, ◌==◌, if◌then◌else◌}

-- `heap_start`, `heap_end` and `heap_curr`; a `uintptr_t` has 32 bits.
pub record Heap : Type 0 where
  pub start : ℕ
  pub limit : ℕ
  pub curr : ℕ

-- `(v + 15u) & ~15u`: the sum wraps, and the mask rounds down to a multiple of 16.
unfoldable pub align16 : ℕ → ℕ
align16 v = (v + 15) % 2 ^ 32 / 16 * 16

-- `memory_init`, for the address of the linker's symbol `_kernel_end`.
unfoldable pub memory_init : ℕ → Heap
memory_init kernel_end =
    let start = align16 kernel_end in record { start = start; limit = 0x400000; curr = start }

-- `kmalloc`: the address, or `none` for a null pointer, and the heap after the call.
unfoldable pub kmalloc : Heap → ℕ → Option ℕ × Heap
kmalloc h size =
    if size == 0
    then (none, h)
    else (let begin = align16 h.curr in
        let end = align16 ((begin + size) % 2 ^ 32) in
        if ltb h.limit end then (none, h) else (some begin, record h { curr = end }))

-- `memory_heap_used`
unfoldable pub heap_used : Heap → ℕ
heap_used h = (h.curr + 2 ^ 32 - h.start) % 2 ^ 32
