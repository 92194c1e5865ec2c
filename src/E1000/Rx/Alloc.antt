-- ===== src/E1000/Rx/Alloc.antt =====
-- A new receive ring, and the filling of it.
use driver_workflow.Prelude.{
  ℕ, zero, suc, ◌+◌, ◌<◌, ◌≡◌, inl, inr, refl, ◌∙◌, subst, Option, none, some, arith, replicate,
  length-set, length-replicate, Bool-cases,
}
use driver_workflow.Dma.{Dma}
use driver_workflow.Mmio.{Registers}
use driver_workflow.Pool.{RxPool}
use driver_workflow.E1000.Desc.{new}
use driver_workflow.E1000.Rx.{
  RxRing, rx_desc_count, new_ring, alloc_ring, map_ring, put_buffer, alloc_single_buffer,
  alloc_from, alloc_rx_buffers,
}
use driver_workflow.E1000.Rx.Inv.{IsValid, read_desc-write_desc}

module _ ⦃d : Dma⦄ ⦃p : RxPool⦄ where
  put_buffer-IsValid :
      (q : RxRing) (i : ℕ) (a : Option p.RxBuffer × p.Pool)
      → IsValid q
      → i < rx_desc_count
      → IsValid (put_buffer q i a).0.1
  unfolding put_buffer
  put_buffer-IsValid q i (none, pool) v h = v
  put_buffer-IsValid q i (some b, pool) v h =
      let (_, _, size) = read_desc-write_desc q.desc_dma i b h v.fits in
      record {
        fits = omega (arith, v.fits, size);
        counted = v.counted;
        in_ring = v.in_ring;
        buffers_count = length-set q.buffers i (some b) ∙ v.buffers_count;
      }

  map_ring-IsValid :
      (m : Option d.Mem) (q : RxRing)
      → ((b : d.Mem) → m ≡ some b → d.size b ≡ 4096)
      → map_ring m ≡ some q
      → IsValid q
  unfolding map_ring
  map_ring-IsValid none q fits e = cc
  map_ring-IsValid (some b) q fits e =
      let made : RxRing = record {
        desc_dma = b;
        ring = new rx_desc_count;
        buffers = replicate rx_desc_count none;
      } in
      let is : made ≡ q = cc in
      subst IsValid is (record {
        fits = omega (arith, fits b refl);
        counted = refl;
        in_ring = record { use_in = omega arith; clean_in = omega arith };
        buffers_count = length-replicate {A = Option p.RxBuffer} rx_desc_count none;
      })

  alloc_ring-IsValid :
      (h : d.Heap) (a : Option d.Segment × d.Heap) (q : RxRing)
      → d.alloc_segment h 1 ≡ a
      → (alloc_ring a).0 ≡ some q
      → IsValid q
  unfolding alloc_ring
  alloc_ring-IsValid h (none, h') q e is = cc
  alloc_ring-IsValid h (some s, h') q e is =
      map_ring-IsValid (d.map_segment s) q (λ b m. omega (arith, d.size-map h 1 h' s b e m)) is

  -- A ring that `RxRing::new` hands out is valid.
  pub new_ring-IsValid : (h : d.Heap) (q : RxRing) → (new_ring h).0 ≡ some q → IsValid q
  unfolding new_ring
  new_ring-IsValid h q e = alloc_ring-IsValid h (d.alloc_segment h 1) q refl e

module _ ⦃d : Dma⦄ ⦃p : RxPool⦄ ⦃io : Registers⦄ where
  alloc_from-IsValid :
      (n i : ℕ) (q : RxRing) (w : io.World) (pool : p.Pool)
      → IsValid q
      → i + n ≡ rx_desc_count
      → IsValid (alloc_from n i q w pool).0.1
  unfolding alloc_from alloc_single_buffer
  alloc_from-IsValid zero i q w pool v total = record {
    fits = v.fits;
    counted = v.counted;
    in_ring = record { use_in = omega (arith, v.counted); clean_in = v.in_ring.clean_in };
    buffers_count = v.buffers_count;
  }
  alloc_from-IsValid (suc n) i q w pool v total =
      let put = put_buffer-IsValid q i (p.take_buffer pool) v (omega arith) in
      elim (Bool-cases (alloc_single_buffer q i pool).0.0) [
        | inl okay ↦ rw okay (alloc_from-IsValid n (i + 1) _ w _ put (omega arith))
        | inr dry ↦ rw dry put
      ]

  -- `alloc_rx_buffers` keeps a ring valid, whether the pool lasts or not.
  pub alloc_rx_buffers-IsValid :
      (q : RxRing) (w : io.World) (pool : p.Pool)
      → IsValid q
      → IsValid (alloc_rx_buffers q w pool).0.1
  unfolding alloc_rx_buffers
  alloc_rx_buffers-IsValid q w pool v = alloc_from-IsValid rx_desc_count 0 q w pool v refl
