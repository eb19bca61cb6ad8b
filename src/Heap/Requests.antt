-- ===== src/Heap/Requests.antt =====
-- Calls of os/heap.c one after the other: heap_init, then any calls of malloc and free.
use multicore_rtos.Base.{ℕ, zero, suc, ◌^◌, ◌≤◌, ◌≡◌, refl, Option, none, some, List, [], ◌∷◌}
use multicore_rtos.Heap.{Heap, Ptr, null, heap_init, malloc}
use multicore_rtos.Heap.Release as Code
use multicore_rtos.Heap.Buddy.{Buddy, free, Empty, IsBase}
use multicore_rtos.Heap.Release.Clients.{
  Valid, Undone, taken, no_room, free-malloc, Answer, given_back, not_found, free-Answer,
}

pub data Request : Type 0 where
  allocate : ℕ → Request
  give_back : Ptr → Request

abbrev pub state_of : {A : Type 0} → Option (A × Heap) → Option Heap
state_of none = none
state_of (some (a, h)) = some h

unfoldable pub serve : Request → Heap → Option Heap
serve (allocate size) h = state_of (malloc size h)
serve (give_back p) h = state_of (Code.free p h)

unfoldable pub serve_all : List Request → Heap → Option Heap
serve_all [] h = some h
serve_all (r ∷ rs) h = elim (serve r h) [ none ↦ none | some h' ↦ serve_all rs h' ]

abbrev pub Modest : List Request → Type 0
Modest [] = Unit
Modest (allocate size ∷ rs) = (size ≤ 2 ^ 16) × Modest rs
Modest (give_back p ∷ rs) = Modest rs

pub record Sound (r : Option Heap) : Type 0 where
  pub state : Heap
  pub heap : Buddy
  pub ends : r ≡ some state
  pub valid : Valid state heap

malloc-Sound :
    {h : Heap} {b : Buddy} {r : Option (Ptr × Heap)} → Valid h b → Undone h b r → Sound (state_of r)
malloc-Sound v (taken v' h'' e w) = record { state = _; heap = _; ends = refl; valid = v' }
malloc-Sound v no_room = record { state = _; heap = _; ends = refl; valid = v }

free-Sound :
    {h : Heap} {b : Buddy} {p : Ptr} {r : Option (ℕ × Heap)}
    → Valid h b
    → Answer h b p r
    → Sound (state_of r)
free-Sound v (given_back g) = record { state = _; heap = g.heap; ends = refl; valid = g.valid }
free-Sound v (not_found a) = record { state = _; heap = _; ends = refl; valid = v }

then_Sound :
    (r : Request) (rs : List Request) (h : Heap)
    → Sound (serve r h)
    → ((h' : Heap) (b' : Buddy) → Valid h' b' → Sound (serve_all rs h'))
    → Sound (serve_all (r ∷ rs) h)
unfolding serve_all
then_Sound r rs h s next = rw (serve_all, s.ends) (next s.state s.heap s.valid)

serve_all-Sound :
    (rs : List Request) (h : Heap) (b : Buddy) → Modest rs → Valid h b → Sound (serve_all rs h)
unfolding serve_all serve
serve_all-Sound [] h b m v = record { state = h; heap = b; ends = refl; valid = v }
serve_all-Sound (allocate size ∷ rs) h b m v =
    then_Sound (allocate size) rs h (malloc-Sound v (free-malloc size h b m.0 v))
      (λ h' b' v'. serve_all-Sound rs h' b' m.1 v')
serve_all-Sound (give_back p ∷ rs) h b m v =
    then_Sound (give_back p) rs h (free-Sound v (free-Answer p h b v))
      (λ h' b' v'. serve_all-Sound rs h' b' m v')

pub Empty-null : (h i : ℕ) → Empty h i (λ _. null)
Empty-null zero i = refl
Empty-null (suc h) i = (refl, Empty-null h _, Empty-null h _)

pub heap_init-Valid : (h : Heap) → IsBase h.heap_ptr → Valid (heap_init h) free
unfolding heap_init
heap_init-Valid h ok = record {
  represents = record { base = ok; open_root = refl; rep = Empty-null 10 0 };
  merged = tt;
  unlocked = refl;
}

-- After heap_init, every call in any sequence of calls of `malloc` for at most half the heap and of
-- `free` for any pointers ends, and the state that they leave represents an abstract heap, whose
-- free halves are merged, with the lock free.
pub requests-Sound :
    (rs : List Request) (h : Heap)
    → Modest rs
    → IsBase h.heap_ptr
    → Sound (serve_all rs (heap_init h))
requests-Sound rs h m ok = serve_all-Sound rs (heap_init h) free m (heap_init-Valid h ok)
