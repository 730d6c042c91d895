-- ===== src/NodeHeap/FirstFree.antt =====
-- An allocator that meets the laws: it takes the highest address of 32 bits that holds no node.
use fantom_os.Base.{
  ℕ, zero, suc, ◌-◌, ◌^◌, ◌≤◌, ◌≡◌, ◌≢◌, refl, inl, inr, Option, Option-cases, none, some, null,
  arith,
}
use fantom_os.NodeHeap.{Ptr, ListNode, Heap, write}
use fantom_os.NodeHeap.Alloc.{IsCalloc}

abbrev choose : Option ListNode → ℕ → ℕ → ℕ
choose none a b = a
choose (some n) a b = b

pub search : ℕ → Heap → Ptr
search zero h = null
search (suc n) h = choose (h (suc n)) (suc n) (search n h)

search-le : (n : ℕ) (h : Heap) → search n h ≤ n
unfolding search
search-le zero h = omega arith
search-le (suc n) h = elim (Option-cases (h (suc n))) [
  | inl free ↦ rw free (omega arith)
  | inr (c, held) ↦ rw held (omega (arith, search-le n h))
]

search-fresh : (n : ℕ) (h : Heap) → search n h ≢ null → h (search n h) ≡ none
unfolding search
search-fresh zero h ne = absurd (ne refl)
search-fresh (suc n) h ne = elim (Option-cases (h (suc n))) [
  | inl free ↦ rw (free, free)
  | inr (c, held) ↦ rw held (search-fresh n h (rw held at ne))
]

pub search-finds : (n : ℕ) (h : Heap) (p : Ptr) → p ≢ null → p ≤ n → h p ≡ none → search n h ≢ null
unfolding search
search-finds zero h p ne le free = absurd (omega arith)
search-finds (suc n) h p ne le free = elim (Option-cases (h (suc n))) [
  | inl here ↦ rw here (omega arith)
  | inr (c, held) ↦ rw held (search-finds n h p ne (ground arith) free)
]

abbrev pub first_free : Heap → Ptr
first_free h = search (2 ^ 32 - 1) h

pub first_free-IsCalloc : IsCalloc first_free
unfolding write
first_free-IsCalloc = record {
  address = λ h. omega (arith, search-le (2 ^ 32 - 1) h);
  fresh = λ h ne. search-fresh (2 ^ 32 - 1) h ne;
  reuse = λ h p n ne small held.
      search-finds (2 ^ 32 - 1) (write h p none) p ne (omega arith) (ground arith);
}
