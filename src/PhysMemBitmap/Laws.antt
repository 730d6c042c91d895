-- ===== src/PhysMemBitmap/Laws.antt =====
-- The allocator over the map: first fit, no page twice, and the round trip with `free`.
use fantom_os.Base.{
  ℕ, zero, suc, ◌+◌, ◌*◌, ◌/◌, ◌^◌, ◌≤◌, ◌<◌, ◌≡◌, ◌≢◌, refl, subst, inl, inr, true, false, arith,
  ◌==◌, Bool-cases, u32, page_size,
}
use fantom_os.Memory.{Mem, IsBytes}
use fantom_os.Bitmap.{Bitmap, check_bit, set_bit}
use fantom_os.Bitmap.Laws.{set_bit-IsBytes, check_bit-set_bit, check_bit-clear_bit}
use fantom_os.PhysMemBitmap.{Page, page, panic, free, search_from, allocate}

-- A map of at most 4 GB of pages, which lies in the address space.
pub record IsValid (map : Bitmap) (m : Mem) : Type 0 where
  pub fits : map.base + map.bytes ≤ 2 ^ 32
  pub pages : map.bytes * 8 ≤ 2 ^ 20
  pub bytes : IsBytes m

-- What a search from `i` over `n` bits has done.
data Found (map : Bitmap) (m : Mem) (i n : ℕ) : Page × Mem → Type 0 where
  found :
      (k : ℕ)
      → i ≤ k
      → k < i + n
      → check_bit map m k ≡ false
      → ((j : ℕ) → i ≤ j → j < k → check_bit map m j ≡ true)
      → Found map m i n (page (u32 (k * page_size)), set_bit map m k)
  full : ((j : ℕ) → i ≤ j → j < i + n → check_bit map m j ≡ true) → Found map m i n (panic, m)

used_from :
    (map : Bitmap) (m : Mem) (i j : ℕ)
    → check_bit map m i ≡ true
    → (i + 1 ≤ j → check_bit map m j ≡ true)
    → i ≤ j
    → check_bit map m j ≡ true
used_from map m i j used later h = elim (Bool-cases (i == j)) [
  | inl e ↦ let p : i ≡ j = ground arith in subst (λ k. check_bit map m k ≡ true) p used
  | inr e ↦ later (ground arith)
]

module _ {map : Bitmap} {m : Mem} where
  widen :
      {i n : ℕ} {r : Page × Mem}
      → check_bit map m i ≡ true
      → Found map m (i + 1) n r
      → Found map m i (suc n) r
  widen {i} used (found k lo hi clear before) =
      found k (omega arith) (omega arith) clear
        λ j a b. used_from map m i j used (λ c. before j c b) a
  widen {i} used (full all) = full λ j a b. used_from map m i j used (λ c. all j c (omega arith)) a

search_from-Found : (map : Bitmap) (m : Mem) (n i : ℕ) → Found map m i n (search_from map m n i)
unfolding search_from
search_from-Found map m zero i = full λ j h k. absurd (omega arith)
search_from-Found map m (suc n) i = elim (Bool-cases (check_bit map m i)) [
  | inl used ↦ rw (used, search_from) (widen used (search_from-Found map m n (i + 1)))
  | inr clear ↦
      rw (clear, search_from)
        (found i (omega arith) (omega arith) clear λ j h k. absurd (omega arith))
]

-- The first page whose bit is clear, or none if every bit of the map is set.
pub data FirstFit (map : Bitmap) (m : Mem) : Page × Mem → Type 0 where
  first :
      (k : ℕ)
      → k < map.bytes * 8
      → check_bit map m k ≡ false
      → ((j : ℕ) → j < k → check_bit map m j ≡ true)
      → FirstFit map m (page (k * page_size), set_bit map m k)
  out_of_memory :
      ((j : ℕ) → j < map.bytes * 8 → check_bit map m j ≡ true) → FirstFit map m (panic, m)

first_of_found :
    {map : Bitmap} {m : Mem} {i n : ℕ} {r : Page × Mem}
    → Found map m i n r
    → i ≡ 0
    → n ≡ map.bytes * 8
    → map.bytes * 8 ≤ 2 ^ 20
    → FirstFit map m r
first_of_found {map} {m} (found k lo hi clear before) z e small =
    let address : k * page_size ≡ u32 (k * page_size) = omega arith in
    subst (λ a. FirstFit map m (page a, set_bit map m k)) address
      (first k (omega arith) clear λ j h. before j (omega arith) h)
first_of_found (full all) z e small = out_of_memory λ j h. all j (omega arith) (omega arith)

-- For a map of at most 4 GB of pages that lies in the address space, the bitmap allocator takes
-- the lowest page whose bit is clear and sets that bit, or panics with the memory unchanged when
-- every bit is set.
pub allocate-FirstFit : {map : Bitmap} {m : Mem} → IsValid map m → FirstFit map m (allocate map m)
unfolding allocate
allocate-FirstFit {map} {m} v =
    first_of_found (search_from-Found map m (u32 (map.bytes * 8)) 0) refl (omega arith) v.pages

module _ {map : Bitmap} {m : Mem} where
  pub used_of_panic :
      {r : Page × Mem}
      → FirstFit map m r
      → r.0 ≡ panic
      → (j : ℕ) → j < map.bytes * 8
      → check_bit map m j ≡ true
  used_of_panic (first k h clear before) e j hj = absurd (ground arith)
  used_of_panic (out_of_memory all) e j hj = all j hj

  pub panic_of_used :
      {r : Page × Mem}
      → FirstFit map m r
      → ((j : ℕ) → j < map.bytes * 8 → check_bit map m j ≡ true)
      → r.0 ≡ panic
  panic_of_used (first k h clear before) all = absurd (ground (arith, all k h))
  panic_of_used (out_of_memory used) all = refl

-- the page that an address lies in is in use
abbrev pub Used : Bitmap → Mem → ℕ → Type 0
Used map m address = check_bit map m (address / page_size) ≡ true

-- What a successful allocation means to the caller: an aligned page of the map, free before and in
-- use after, while every other page is as it was.
pub record Taken (map : Bitmap) (m m' : Mem) (address : ℕ) : Type 0 where
  pub aligned : (address / page_size) * page_size ≡ address
  pub in_map : address < map.bytes * 8 * page_size
  pub was_free : check_bit map m (address / page_size) ≡ false
  pub now_used : Used map m' address
  pub others :
      (j : ℕ) → j < map.bytes * 8 → j ≢ address / page_size → check_bit map m' j ≡ check_bit map m j
  pub valid : IsValid map m'

Taken-of_first :
    {map : Bitmap} {m : Mem} {r : Page × Mem} (address : ℕ)
    → IsValid map m
    → FirstFit map m r
    → r.0 ≡ page address
    → Taken map m r.1 address
Taken-of_first {map} {m} address v (first k h clear before) e =
    let index : address / page_size ≡ k = ground arith in
    record {
      aligned = ground arith;
      in_map = ground arith;
      was_free = rw index clear;
      now_used = rw index (ground (arith, check_bit-set_bit map m k k));
      others = λ j hj ne. ground (arith, check_bit-set_bit map m k j);
      valid = record { fits = v.fits; pages = v.pages; bytes = set_bit-IsBytes map m k v.bytes };
    }
Taken-of_first address v (out_of_memory all) e = absurd (ground arith)

-- A page that is handed out was free, is in use from then on, and no other page changes.
pub allocate-Taken :
    {map : Bitmap} {m : Mem} (address : ℕ)
    → IsValid map m
    → (allocate map m).0 ≡ page address
    → Taken map m (allocate map m).1 address
allocate-Taken address v e = Taken-of_first address v (allocate-FirstFit v) e

-- In a well-formed state, two successful allocations in a row from the bitmap allocator never
-- return the same page.
pub allocate-distinct :
    {map : Bitmap} {m : Mem} (a b : ℕ)
    → IsValid map m
    → (allocate map m).0 ≡ page a
    → (allocate map (allocate map m).1).0 ≡ page b
    → a ≢ b
allocate-distinct a b v p q e =
    let one = allocate-Taken a v p in
    let two = allocate-Taken b one.valid q in ground (arith, one.now_used, two.was_free)

-- In a well-formed state, freeing the page that the bitmap allocator just returned gives every
-- page of the map its state from before.
pub free-allocate :
    {map : Bitmap} {m : Mem} (address j : ℕ)
    → IsValid map m
    → (allocate map m).0 ≡ page address
    → j < map.bytes * 8
    → check_bit map (free map (allocate map m).1 address) j ≡ check_bit map m j
unfolding free
free-allocate {map} {m} address j v p h =
    let t = allocate-Taken address v p in
    ground (
      arith,
      check_bit-clear_bit map (allocate map m).1 (address / page_size) j t.valid.bytes t.valid.fits,
      t.in_map,
      t.was_free,
      t.others j,
    )
