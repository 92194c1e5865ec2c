-- ===== src/Dma.antt =====
-- DMA memory as the drivers use it: ostd's frame allocator, `DmaStream::map` and
-- `DmaCoherent::alloc`, and the readers and writers over a mapped region. That code is not part of the repository, so it is an interface
-- here: its operations, and the behaviour that the drivers rely on.
use driver_workflow.Prelude.{
  ℕ, ◌+◌, ◌*◌, ◌≤◌, ◌≡◌, Bool, true, Option, some, List, ◌++◌, ◌⊎◌, length, slice, replicate,
}

pub record Dma : Type 1 where
  -- the allocator's state, a run of frames, and a mapped region
  pub Heap : Type 0
  pub Segment : Type 0
  pub Mem : Type 0
  -- `FrameAllocOptions::new().alloc_segment(n)`
  pub alloc_segment : Heap → ℕ → Option Segment × Heap
  -- `DmaStream::map(segment.into(), _)`
  pub map_segment : Segment → Option Mem
  -- `DmaCoherent::alloc(n, _)`
  pub alloc_coherent : Heap → ℕ → Option Mem × Heap
  -- `daddr()`, and the length of the region in bytes
  pub daddr : Mem → ℕ
  pub size : Mem → ℕ
  -- whether `writer()` and `reader()` succeed
  pub is_open : Mem → Bool
  -- whether `sync_to_device(a..b)` and `sync_from_device(a..b)` succeed
  pub syncs : Mem → ℕ → ℕ → Bool
  -- `writer.skip(o)` and `writer.write(bytes)`
  pub copy_in : Mem → ℕ → List ℕ → Mem
  -- `reader.skip(o)` and a `read` of `n` bytes
  pub copy_out : Mem → ℕ → ℕ → List ℕ
  -- a mapped region can be opened, and synced within its bounds
  pub open_always : (m : Mem) → is_open m ≡ true
  pub syncs_within : (m : Mem) (a b : ℕ) → b ≤ size m → syncs m a b ≡ true
  pub syncs_only_within : (m : Mem) (a b : ℕ) → syncs m a b ≡ true → b ≤ size m
  -- a copy within the bounds moves exactly the bytes of its range
  pub size-copy_in : (m : Mem) (o : ℕ) (bs : List ℕ) → size (copy_in m o bs) ≡ size m
  pub daddr-copy_in : (m : Mem) (o : ℕ) (bs : List ℕ) → daddr (copy_in m o bs) ≡ daddr m
  pub copy_in-append :
      (m : Mem) (o : ℕ) (bs cs : List ℕ)
      → copy_in m o (bs ++ cs) ≡ copy_in (copy_in m o bs) (o + length bs) cs
  pub copy_out-copy_in_same :
      (m : Mem) (o n : ℕ) (bs : List ℕ)
      → n ≡ length bs
      → o + n ≤ size m
      → copy_out (copy_in m o bs) o n ≡ bs
  pub copy_out-copy_in_apart :
      (m : Mem) (o : ℕ) (bs : List ℕ) (p n : ℕ)
      → (p + n ≤ o) ⊎ (o + length bs ≤ p)
      → copy_out (copy_in m o bs) p n ≡ copy_out m p n
  pub slice-copy_out :
      (m : Mem) (o k a n : ℕ) → a + n ≤ k → slice a n (copy_out m o k) ≡ copy_out m (o + a) n
  -- a fresh mapping covers the pages asked for
  pub size-map :
      (h : Heap) (n : ℕ) (h' : Heap) (s : Segment) (m : Mem)
      → alloc_segment h n ≡ (some s, h')
      → map_segment s ≡ some m
      → size m ≡ n * 4096
  -- a coherent region covers the pages asked for, and starts out zeroed
  pub size-alloc_coherent :
      (h : Heap) (n : ℕ) (m : Mem) → (alloc_coherent h n).0 ≡ some m → size m ≡ n * 4096
  pub alloc_coherent-zeroed :
      (h : Heap) (n : ℕ) (m : Mem) (o k : ℕ)
      → (alloc_coherent h n).0 ≡ some m
      → o + k ≤ n * 4096
      → copy_out m o k ≡ replicate k 0
