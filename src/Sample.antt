-- ===== src/Sample.antt =====
-- An instance of each interface, to run the models on and to show that the assumptions can hold:
-- memory as a function from offsets to bytes, and registers as a log of the writes.
use driver_workflow.Prelude.{
  ℕ, zero, suc, ◌+◌, ◌*◌, ◌≤◌, ◌<◌, ◌≡◌, ◌⊎◌, refl, sym, ap, ◌∙◌, ◌-◌, true, Option, some, none,
  List, [], ◌∷◌, ◌++◌, arith, ◌==◌, leb, leb→le, if◌then◌else◌, length, slice, replicate,
}
use driver_workflow.Dma.{Dma}
use driver_workflow.Mmio.{Mmio, Registers}
use driver_workflow.Pool.{RxPool}

pub record Bytes : Type 0 where
  pub cell : ℕ → ℕ
  pub len : ℕ
  pub base : ℕ

abbrev pub poke : (ℕ → ℕ) → ℕ → ℕ → ℕ → ℕ
poke f o b a = if a == o then b else f a

abbrev pub store : (ℕ → ℕ) → ℕ → List ℕ → ℕ → ℕ
store f o [] = f
store f o (b ∷ bs) = store (poke f o b) (suc o) bs

abbrev pub load : (ℕ → ℕ) → ℕ → ℕ → List ℕ
load f o zero = []
load f o (suc n) = f o ∷ load f (suc o) n

pub store-append :
    (f : ℕ → ℕ) (o : ℕ) (bs cs : List ℕ)
    → store f o (bs ++ cs) ≡ store (store f o bs) (o + length bs) cs
store-append f o [] cs = ap (λ k. store f k cs) (omega arith)
store-append f o (b ∷ bs) cs =
    store-append (poke f o b) (suc o) bs cs
    ∙ ap (λ k. store (store (poke f o b) (suc o) bs) k cs) (omega arith)

-- A store leaves the offsets outside its range alone.
pub store_outside :
    (f : ℕ → ℕ) (o : ℕ) (bs : List ℕ) (a : ℕ) → (a < o) ⊎ (o + length bs ≤ a) → store f o bs a ≡ f a
store_outside f o [] a h = refl
store_outside f o (b ∷ bs) a h = ground (arith, store_outside (poke f o b) (suc o) bs a)

pub load-store_outside :
    (f : ℕ → ℕ) (o : ℕ) (bs : List ℕ) (p n : ℕ)
    → (p + n ≤ o) ⊎ (o + length bs ≤ p)
    → load (store f o bs) p n ≡ load f p n
load-store_outside f o bs p zero h = refl
load-store_outside f o bs p (suc n) h =
    ground (arith, store_outside f o bs p, load-store_outside f o bs (suc p) n)

pub load-store : (f : ℕ → ℕ) (o : ℕ) (bs : List ℕ) → load (store f o bs) o (length bs) ≡ bs
load-store f o [] = refl
load-store f o (b ∷ bs) =
    ground (arith, store_outside (poke f o b) (suc o) bs o, load-store (poke f o b) (suc o) bs)

pub slice-load : (f : ℕ → ℕ) (o k a n : ℕ) → a + n ≤ k → slice a n (load f o k) ≡ load f (o + a) n
slice-load f o k zero zero h = refl
slice-load f o zero zero (suc n) h = absurd (omega arith)
slice-load f o (suc k) zero (suc n) h =
    let e : o + 0 ≡ o = omega arith in
    let e' : suc o + 0 ≡ suc o = omega arith in
    rw e (ap (◌∷◌ (f o)) (rw e' at (slice-load f (suc o) k zero n (omega arith))))
slice-load f o zero (suc a) n h = absurd (omega arith)
slice-load f o (suc k) (suc a) n h =
    slice-load f (suc o) k a n (omega arith) ∙ ap (λ p. load f p n) (omega arith)

-- A run of frames: its first page, and how many.
pub record Frames : Type 0 where
  pub first : ℕ
  pub pages : ℕ

-- A fresh mapping is all zero.
abbrev pub map_frames : Frames → Bytes
map_frames s = record { cell = λ a. 0; len = s.pages * 4096; base = s.first * 4096 }

pub map_frames-len :
    (used n h' : ℕ) (s : Frames) (m : Bytes)
    → ◌≡◌ {A = Option Frames × ℕ} (some (record { first = used; pages = n }), used + n) (some s, h')
    → some (map_frames s) ≡ some m
    → m.len ≡ n * 4096
map_frames-len used n h' s m e q = ground arith

pub le→leb : (a b : ℕ) → a ≤ b → leb a b ≡ true
le→leb a b h = ground arith

pub load-store_of_length :
    (f : ℕ → ℕ) (o n : ℕ) (bs : List ℕ) → n ≡ length bs → load (store f o bs) o n ≡ bs
load-store_of_length f o n bs e = rw e (load-store f o bs)

abbrev pub fresh_pages : ℕ → ℕ → Bytes
fresh_pages used n = map_frames (record { first = used; pages = n })

pub fresh_pages-len :
    (used n : ℕ) (m : Bytes) → some (fresh_pages used n) ≡ some m → m.len ≡ n * 4096
fresh_pages-len used n m q = ground arith

load-zeros : (o k : ℕ) → load (λ a. 0) o k ≡ replicate k 0
load-zeros o zero = refl
load-zeros o (suc k) = ap (◌∷◌ 0) (load-zeros (suc o) k)

pub fresh_pages-zeroed :
    (used n : ℕ) (m : Bytes) (o k : ℕ)
    → some (fresh_pages used n) ≡ some m
    → load m.cell o k ≡ replicate k 0
fresh_pages-zeroed used n m o k q =
    let e : fresh_pages used n ≡ m = cc in
    sym (ap (λ (b : Bytes). load b.cell o k) e) ∙ load-zeros o k

-- The allocator counts the pages that it has handed out.
instance abbrev pub byte_memory : Dma
byte_memory = record {
  Heap = ℕ;
  Segment = Frames;
  Mem = Bytes;
  alloc_segment = λ used n. (some (record { first = used; pages = n }), used + n);
  map_segment = λ s. some (map_frames s);
  alloc_coherent = λ used n. (some (fresh_pages used n), used + n);
  daddr = λ m. m.base;
  size = λ m. m.len;
  is_open = λ m. true;
  syncs = λ m a b. leb b m.len;
  copy_in = λ m o bs. record m { cell = store m.cell o bs };
  copy_out = λ m o n. load m.cell o n;
  open_always = λ m. refl;
  syncs_within = λ m a b h. le→leb b m.len h;
  syncs_only_within = λ m a b h. leb→le b m.len h;
  size-copy_in = λ m o bs. refl;
  daddr-copy_in = λ m o bs. refl;
  copy_in-append = λ m o bs cs. ap (λ f. record m { cell = f }) (store-append m.cell o bs cs);
  copy_out-copy_in_same = λ m o n bs e h. load-store_of_length m.cell o n bs e;
  copy_out-copy_in_apart = λ m o bs p n h. load-store_outside m.cell o bs p n h;
  slice-copy_out = λ m o k a n h. slice-load m.cell o k a n h;
  size-map = λ h n h' s m e q. map_frames-len h n h' s m e q;
  size-alloc_coherent = λ h n m q. fresh_pages-len h n m q;
  alloc_coherent-zeroed = λ h n m o k q _. fresh_pages-zeroed h n m o k q;
}

-- The writes, newest first; every read returns 0.
instance abbrev pub register_log : Mmio
register_log = record {
  World = List (ℕ × ℕ × ℕ);
  read = λ w width o. (some 0, w);
  write = λ w width o v. (true, (width, o, v) ∷ w);
}

-- The same for unwrapped 32-bit registers.
instance abbrev pub write_log : Registers
write_log = record { World = List (ℕ × ℕ); read = λ w o. (0, w); write = λ w o v. (o, v) ∷ w }

-- A pool that counts its buffers down; a buffer is its address and its payload's length.
instance abbrev pub counted_pool : RxPool
counted_pool = record {
  Pool = ℕ;
  RxBuffer = ℕ × ℕ;
  take_buffer = λ n. if n == 0 then (none, 0) else (some (n * 2048, 0), n - 1);
  daddr = λ b. b.0;
  set_payload_len = λ b n. (b.0, n);
}
