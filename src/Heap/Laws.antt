-- ===== src/Heap/Laws.antt =====
-- kernel/memory.c: where blocks lie.
use os_u.Prelude.{ℕ, ◌+◌, ◌-◌, ◌%◌, ◌^◌, ◌≤◌, ◌<◌, ◌≡◌, ◌⊎◌, none, some, arith}
use os_u.Heap.{Heap, align16, memory_init, kmalloc, heap_used}

-- The state between calls: the next address is a multiple of 16 within the heap, below 4 MiB.
pub record IsValid (h : Heap) : Type 0 where
  pub aligned : h.curr % 16 ≡ 0
  pub above : h.start ≤ h.curr
  pub below : h.curr ≤ h.limit
  pub limit_lem : h.limit ≡ 0x400000

-- If the kernel ends at or below the fixed end of the heap, `memory_init` gives a valid heap of
-- which nothing is used.
pub memory_init-IsValid :
    (kernel_end : ℕ)
    → kernel_end ≤ 0x400000
    → IsValid (memory_init kernel_end) × (heap_used (memory_init kernel_end) ≡ 0)
unfolding memory_init align16 heap_used
memory_init-IsValid e h = omega arith

-- On a valid heap a request of less than 2^32 - 2^23 bytes either fails and changes nothing, which
-- happens exactly for a size of 0 or one that does not fit the rest of the heap, or gives a block
-- aligned to 16 that begins at the old end, lies below the limit and below the new end, and leaves
-- a valid heap.
pub kmalloc_lem :
    (h : Heap) (size : ℕ)
    → IsValid h
    → size < 2 ^ 32 - 2 ^ 23
    → let (r, h') = kmalloc h size in
      ((r ≡ none) × (h' ≡ h) × ((size ≡ 0) ⊎ (h.limit < h.curr + size)))
      ⊎ ((r ≡ some h.curr)
          × (h.curr % 16 ≡ 0)
          × (0 < size)
          × (h.curr + size ≤ h'.curr)
          × (h'.curr ≤ h.limit)
          × (h'.start ≡ h.start)
          × IsValid h')
unfolding kmalloc align16
kmalloc_lem h size v b = ground arith

-- The sum in kmalloc can wrap: on a valid heap a request of less than 2^32 bytes that would pass the
-- end of the address space is granted, although it does not fit, and moves the end of the used part
-- back to where it was or below, so that later blocks lie over earlier ones.
pub kmalloc-wraps :
    (h : Heap) (size : ℕ)
    → IsValid h
    → size < 2 ^ 32
    → 2 ^ 32 ≤ h.curr + size
    → let (r, h') = kmalloc h size in (r ≡ some h.curr) × (h'.curr ≤ h.curr)
unfolding kmalloc align16
kmalloc-wraps h size v b w = ground arith
