-- ===== src/Mpmc/Deliver.antt =====
-- FIFO_t of os/ipc.c: `fifo_put` and then `fifo_get`.
use multicore_rtos.Base.{
  ℕ, ◌+◌, ◌-◌, ◌<◌, ◌≡◌, refl, ◌≢◌, ◌∙◌, ap, true, false, arith, ltb, leb, ◌==◌, ==_iff, ==_of_ne,
}
use multicore_rtos.Mpmc.{
  Fifo, Call, done, waits, fifo_put, fifo_get, store_element, load_element, has_case, next,
  position, read_head,
}

load-store :
    (n at : ℕ) (v bytes old : ℕ → ℕ) (i : ℕ)
    → has_case n ≡ true
    → i < n
    → load_element n at (store_element n at v bytes) old i ≡ v i
unfolding load_element store_element
load-store n at v bytes old i c lt =
    let a : ltb i n ≡ true = ground arith in
    let b : leb at (at + i) ≡ true = ground arith in
    let d : ltb (at + i) (at + n) ≡ true = ground arith in
    let e : at + i - at ≡ i = omega arith in rw (c, a, b, d, e) refl

-- `fifo_get` after `fifo_put`
abbrev pub then_get : (ℕ → ℕ) → Call (Unit {0}) → Call (ℕ → ℕ)
then_get old (done _ f) = fifo_get f old
then_get old (waits f) = waits f

pub record Delivered (f : Fifo) (v : ℕ → ℕ) (r : Call (ℕ → ℕ)) : Type 0 where
  pub element : ℕ → ℕ
  pub after : Fifo
  pub returned : r ≡ done element after
  pub same : (i : ℕ) → i < f.element_size → element i ≡ v i
  pub empty_again : after.head ≡ after.tail
  pub room_again : after.full ≡ f.full
  pub none_left : after.empty ≡ 0

module _ (f : Fifo) (v old : ℕ → ℕ) (known : has_case f.element_size ≡ true)
    (empty : f.head ≡ f.tail) (room : f.full ≢ 0) (none_yet : f.empty ≡ 0)
    (idle : f.mutex ≡ 0) where
  abbrev stored : Fifo
  stored = record f {
    full = f.full - 1;
    bytes = store_element f.element_size (position f f.tail) v f.bytes;
    tail = next f f.tail;
    mutex = 0;
    empty = f.empty + 1;
  }

  put-stored : fifo_put f v ≡ done tt stored
  unfolding fifo_put
  put-stored =
      let a : (f.full == 0) ≡ false = ==_of_ne f.full 0 room in
      let b : (f.mutex == 0) ≡ true = (==_iff _ _).1 idle in rw (a, b) refl

  abbrev fetched : Fifo
  fetched = record stored {
    empty = f.empty + 1 - 1;
    head = next f f.head;
    mutex = 0;
    full = f.full - 1 + 1;
  }

  get-fetched : fifo_get stored old ≡ done (read_head stored old) fetched
  unfolding fifo_get
  get-fetched =
      let a : (f.empty + 1 == 0) ≡ false = ==_of_ne (f.empty + 1) 0 (omega arith) in rw a refl

  -- On a FIFO_t that is empty, has room by its semaphore, has a width that the switch knows and whose
  -- mutex is free, `fifo_put` and then `fifo_get` return without waiting, and give back the bytes of
  -- the element; the FIFO is empty again and has the room that it had.
  pub fifo_get-fifo_put : Delivered f v (then_get old (fifo_put f v))
  fifo_get-fifo_put = record {
    element = read_head stored old;
    after = fetched;
    returned = ap (then_get old) put-stored ∙ get-fetched;
    same =
        λ i lt. rw empty (load-store f.element_size (position f f.tail) v f.bytes old i known lt);
    empty_again = ap (next f) empty;
    room_again = omega (arith, room);
    none_left = omega (arith, none_yet);
  }
