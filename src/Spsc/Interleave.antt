-- ===== src/Spsc/Interleave.antt =====
-- One producer in `fifo32_put` and one consumer in `fifo32_get`, interleaved at each access to the
-- memory that they share. A call that finds the FIFO full returns 1, and a `get` that finds it empty
-- waits: both leave the memory as it is. Accesses take effect in the order of the code.
use multicore_rtos.Base.{
  ℕ, ◌+◌, ◌^◌, ◌<◌, ◌≡◌, refl, ◌≢◌, ◌∙◌, ap, subst, sym, List, [], ◌∷◌, ◌++◌, arith, update,
  update_self, update_ne, fun_ext, ==_of_ne,
}
use mathlib.Core.List.{append_assoc}
use multicore_rtos.Spsc.{Fifo, next, fifo32_put}
use multicore_rtos.Spsc.Window.{
  count, contents, IsValid, window-update, tail_at, count-lt, full_iff,
}
use multicore_rtos.Spsc.Queue.{
  advanced, contents-appended, contents-advanced, appended-IsValid, advanced-IsValid,
  count-advanced,
}

-- Where the producer stands: outside, past the test, or past the write of the element.
pub data Producer : Type 0 where
  outside : Producer
  checked : ℕ → Producer
  written : ℕ → Producer

-- Where the consumer stands: outside, past the test, or with the element read.
pub data Consumer : Type 0 where
  outside : Consumer
  ready : Consumer
  got : ℕ → Consumer

-- `sent` and `received` are the elements of the calls that have finished, oldest first.
pub record System : Type 0 where
  pub fifo : Fifo
  pub producer : Producer
  pub consumer : Consumer
  pub sent : List ℕ
  pub received : List ℕ

pub data Step (s : System) : System → Type 0 where
  put_full : s.producer ≡ Producer.outside → next s.fifo.size s.fifo.tail ≡ s.fifo.head → Step s s
  put_check :
      (d : ℕ)
      → s.producer ≡ Producer.outside
      → next s.fifo.size s.fifo.tail ≢ s.fifo.head
      → Step s (record s { producer = checked d })
  put_write :
      {d : ℕ}
      → s.producer ≡ checked d
      → Step s (record s {
        fifo = record s.fifo { items = update s.fifo.items s.fifo.tail d };
        producer = written d;
      })
  put_tail :
      {d : ℕ}
      → s.producer ≡ written d
      → Step s (record s {
        fifo = record s.fifo { tail = next s.fifo.size s.fifo.tail };
        producer = Producer.outside;
        sent = s.sent ++ (d ∷ []);
      })
  get_wait : s.consumer ≡ Consumer.outside → s.fifo.head ≡ s.fifo.tail → Step s s
  get_check :
      s.consumer ≡ Consumer.outside
      → s.fifo.head ≢ s.fifo.tail
      → Step s (record s { consumer = ready })
  get_read : s.consumer ≡ ready → Step s (record s { consumer = got (s.fifo.items s.fifo.head) })
  get_head :
      {d : ℕ}
      → s.consumer ≡ got d
      → Step s (record s {
        fifo = record s.fifo { head = next s.fifo.size s.fifo.head };
        consumer = Consumer.outside;
        received = s.received ++ (d ∷ []);
      })

pub data Reach (s : System) : System → Type 0 where
  here : Reach s s
  later : {t u : System} → Reach s t → Step t u → Reach s u

-- What the locals of the two threads say about the shared memory.
abbrev pub ProducerFits : Fifo → Producer → Type 0
ProducerFits f Producer.outside = Unit
ProducerFits f (checked d) = count f + 1 ≢ f.size
ProducerFits f (written d) = (count f + 1 ≢ f.size) × (f.items f.tail ≡ d)

abbrev pub ConsumerFits : Fifo → Consumer → Type 0
ConsumerFits f Consumer.outside = Unit
ConsumerFits f ready = f.head ≢ f.tail
ConsumerFits f (got d) = (f.head ≢ f.tail) × (f.items f.head ≡ d)

pub record Inv (s : System) : Type 0 where
  pub valid : IsValid s.fifo
  pub order : s.sent ≡ s.received ++ contents s.fifo
  pub producer_fits : ProducerFits s.fifo s.producer
  pub consumer_fits : ConsumerFits s.fifo s.consumer

write_same : (f : Fifo) {d : ℕ} → f.items f.tail ≡ d → update f.items f.tail d ≡ f.items
write_same f e = fun_ext λ j. ground arith

module _ (f : Fifo) (v : IsValid f) where
  consumer-put_write :
      (d : ℕ) (c : Consumer)
      → ConsumerFits f c
      → ConsumerFits (record f { items = update f.items f.tail d }) c
  consumer-put_write d Consumer.outside h = tt
  consumer-put_write d ready h = h
  consumer-put_write d (got x) h = (h.0, update_ne f.items f.tail d h.0 ∙ h.1)

  contents-put_write :
      (d : ℕ) → contents (record f { items = update f.items f.tail d }) ≡ contents f
  contents-put_write d =
      window-update f.items f.size d (count f) f.head f.tail v.head_in (count-lt f v)
        (sym (tail_at f v))

  contents-put_tail :
      (d : ℕ)
      → count f + 1 ≢ f.size
      → f.items f.tail ≡ d
      → contents (record f { tail = next f.size f.tail }) ≡ contents f ++ (d ∷ [])
  contents-put_tail d room e =
      ap (λ items. contents (record f { items = items; tail = next f.size f.tail }))
        (sym (write_same f e))
      ∙ contents-appended f v room d

  consumer-put_tail :
      (c : Consumer)
      → count f + 1 ≢ f.size
      → ConsumerFits f c
      → ConsumerFits (record f { tail = next f.size f.tail }) c
  consumer-put_tail Consumer.outside room h = tt
  consumer-put_tail ready room h = λ q. room ((full_iff f v).0 (sym q))
  consumer-put_tail (got x) room h = (λ q. room ((full_iff f v).0 (sym q)), h.1)

  producer-get_head :
      (p : Producer) → f.head ≢ f.tail → ProducerFits f p → ProducerFits (advanced f) p
  producer-get_head Producer.outside filled h = tt
  producer-get_head (checked d) filled h = omega (arith, count-advanced f v filled, count-lt f v)
  producer-get_head (written d) filled h =
      (omega (arith, count-advanced f v filled, count-lt f v), h.1)

pub Step-Inv : {s t : System} → Inv s → Step s t → Inv t
Step-Inv inv (put_full e full) = inv
Step-Inv {s} inv (put_check d e room) = record {
  valid = inv.valid;
  order = inv.order;
  producer_fits = λ q. room ((full_iff s.fifo inv.valid).1 q);
  consumer_fits = inv.consumer_fits;
}
Step-Inv {s} inv (put_write {d} e) = record {
  valid = record {
    small = inv.valid.small;
    head_in = inv.valid.head_in;
    tail_in = inv.valid.tail_in;
  };
  order = rw (contents-put_write s.fifo inv.valid d) inv.order;
  producer_fits =
      (subst (ProducerFits s.fifo) e inv.producer_fits, update_self s.fifo.items s.fifo.tail d);
  consumer_fits = consumer-put_write s.fifo inv.valid d s.consumer inv.consumer_fits;
}
Step-Inv {s} inv (put_tail {d} e) =
    let fits : ProducerFits s.fifo (written d) = subst (ProducerFits s.fifo) e inv.producer_fits in
    record {
      valid = tail_IsValid fits.0;
      order =
          ap (λ q. q ++ (d ∷ [])) inv.order
          ∙ append_assoc s.received (contents s.fifo) (d ∷ [])
          ∙ ap (λ q. s.received ++ q) (sym (contents-put_tail s.fifo inv.valid d fits.0 fits.1));
      producer_fits = tt;
      consumer_fits = consumer-put_tail s.fifo inv.valid s.consumer fits.0 inv.consumer_fits;
    }
  where
    tail_IsValid :
        count s.fifo + 1 ≢ s.fifo.size
        → IsValid (record s.fifo { tail = next s.fifo.size s.fifo.tail })
    tail_IsValid room =
        let w = appended-IsValid s.fifo inv.valid room 0 in
        record { small = w.small; head_in = w.head_in; tail_in = w.tail_in }
Step-Inv inv (get_wait e empty) = inv
Step-Inv inv (get_check e filled) = record {
  valid = inv.valid;
  order = inv.order;
  producer_fits = inv.producer_fits;
  consumer_fits = filled;
}
Step-Inv {s} inv (get_read e) = record {
  valid = inv.valid;
  order = inv.order;
  producer_fits = inv.producer_fits;
  consumer_fits = (subst (ConsumerFits s.fifo) e inv.consumer_fits, refl);
}
Step-Inv {s} inv (get_head {d} e) =
    let fits : ConsumerFits s.fifo (got d) = subst (ConsumerFits s.fifo) e inv.consumer_fits in
    record {
      valid = advanced-IsValid s.fifo inv.valid fits.0;
      order =
          inv.order
          ∙ ap (λ q. s.received ++ q)
              (contents-advanced s.fifo inv.valid fits.0
                ∙ ap (λ x. x ∷ contents (advanced s.fifo)) fits.1)
          ∙ sym (append_assoc s.received (d ∷ []) (contents (advanced s.fifo)));
      producer_fits = producer-get_head s.fifo inv.valid s.producer fits.0 inv.producer_fits;
      consumer_fits = tt;
    }

Reach-Inv : {s t : System} → Inv s → Reach s t → Inv t
Reach-Inv inv here = inv
Reach-Inv inv (later r st) = Step-Inv (Reach-Inv inv r) st

-- an empty FIFO of the given size, with no call under way
abbrev pub start : ℕ → (ℕ → ℕ) → System
start size items = record {
  fifo = record { head = 0; tail = 0; size = size; items = items };
  producer = Producer.outside;
  consumer = Consumer.outside;
  sent = [];
  received = [];
}

-- Whatever the interleaving of one producer and one consumer on a FIFO that was empty, of a size
-- from 1 up to 2^32 - 1, the elements sent are those received and then those in the FIFO, in this
-- order: none is lost, doubled, overtaken or read before it is written.
pub Reach-order :
    (size : ℕ) (items : ℕ → ℕ) {s : System}
    → 0 < size
    → size < 2 ^ 32
    → Reach (start size items) s
    → s.sent ≡ s.received ++ contents s.fifo
Reach-order size items pos small r = (Reach-Inv begin r).order
  where
    begin : Inv (start size items)
    begin = record {
      valid = record { small = small; head_in = pos; tail_in = pos };
      order = refl;
      producer_fits = tt;
      consumer_fits = tt;
    }

-- A call of `fifo32_put` that no step of the consumer interrupts does what the function does.
pub put_alone :
    (s : System) (d : ℕ)
    → s.producer ≡ Producer.outside
    → next s.fifo.size s.fifo.tail ≢ s.fifo.head
    → Reach s (record s {
      fifo = (fifo32_put s.fifo d).1;
      producer = Producer.outside;
      sent = s.sent ++ (d ∷ []);
    })
unfolding fifo32_put
put_alone s d e room =
    rw (==_of_ne _ _ room)
      (later (later (later here (put_check d e room)) (put_write refl)) (put_tail refl))
