-- ===== src/LinkedList/Get.antt =====
-- LinkedList_getNodeByIndex, LinkedList_getNodeByData and LinkedList_destroy read the list as it is.
use fantom_os.Base.{
  ℕ, zero, suc, ◌+◌, ◌≤◌, ◌≡◌, refl, true, false, none, some, [], ◌∷◌, arith, ◌==◌, if◌then◌else◌,
  leb, length, subst, null, Bool-cases, inl, inr, ◌∙◌,
}
use fantom_os.NodeHeap.{Ptr, Heap, write}
use fantom_os.NodeHeap.Ran.{Ran}
use fantom_os.NodeHeap.Steps.{not_null, load-some, free-some}
use fantom_os.LinkedList.{
  LinkedList, walk_to, get_node_by_index, search_for, get_node_by_data, destroy_from, destroy,
}
use fantom_os.LinkedList.Seg.{
  Cells, has, first, Chain, IsList, Chain-frame, Distinct, write_self, write_ne,
}

-- the address of the cell with a number, NULL past the end
abbrev pub address_at : Cells → ℕ → Ptr
address_at [] i = null
address_at ((p, _) ∷ xs) zero = p
address_at ((p, _) ∷ xs) (suc i) = address_at xs i

-- the address of the first cell with some data, NULL if there is none
abbrev pub address_of : Cells → ℕ → Ptr
address_of [] d = null
address_of ((p, e) ∷ xs) d = if e == d then p else address_of xs d

-- With as many rounds as cells, the walk from cell `i` ends at cell `i + k`.
walk_to_lem :
    (h : Heap) (prev : Ptr) (xs : Cells) (i k index : ℕ)
    → Chain h prev xs null
    → index ≡ i + k
    → walk_to index (length xs) i (first xs null) h ≡ some (address_at xs k, h)
unfolding walk_to
walk_to_lem h prev [] i k index s e = refl
walk_to_lem h prev ((p, d) ∷ xs) i zero index s e =
    let here : (i == index) ≡ true = ground arith in rw here
walk_to_lem h prev ((p, d) ∷ xs) i (suc k) index s e =
    let later : (i == index) ≡ false = ground arith in
    rw (later, load-some h p _ s.0 s.1) (walk_to_lem h p xs (i + 1) k index s.2 (omega arith))

address_at_end : (xs : Cells) (i : ℕ) → length xs ≤ i → address_at xs i ≡ null
address_at_end [] i h = refl
address_at_end (x ∷ xs) zero h = absurd (omega arith)
address_at_end (x ∷ xs) (suc i) h = address_at_end xs i (omega arith)

-- On a well-formed list, looking a node up by number returns the address of that cell, NULL past
-- the end, and changes nothing.
pub get_node_by_index_lem :
    {h : Heap} {l : LinkedList} (xs : Cells) (i : ℕ)
    → IsList h l xs
    → get_node_by_index l i h ≡ some (address_at xs i, h)
unfolding get_node_by_index
get_node_by_index_lem {h} {l} xs i is = elim (Bool-cases (leb (length xs) i)) [
  | inl past ↦ rw (is.count, past, address_at_end xs i (ground arith))
  | inr there ↦ rw (is.count, there, is.front) (walk_to_lem h null xs 0 i i is.chain (omega arith))
]

-- One round more than there are cells is enough for the search.
search_for_lem :
    (h : Heap) (prev : Ptr) (xs : Cells) (d : ℕ)
    → Chain h prev xs null
    → search_for d (suc (length xs)) (first xs null) h ≡ some (address_of xs d, h)
unfolding search_for
search_for_lem h prev [] d s = refl
search_for_lem h prev ((p, e) ∷ xs) d s = elim (Bool-cases (e == d)) [
  | inl here ↦ rw (not_null p s.0, load-some h p _ s.0 s.1, here)
  | inr later ↦ rw (not_null p s.0, load-some h p _ s.0 s.1, later) (search_for_lem h p xs d s.2)
]

-- On a well-formed list, looking a node up by data ends, returns the address of the first cell
-- that holds the data, NULL if none does, and changes nothing.
pub get_node_by_data_lem :
    {h : Heap} {l : LinkedList} (xs : Cells) (d : ℕ)
    → IsList h l xs
    → get_node_by_data l d h ≡ some (address_of xs d, h)
unfolding get_node_by_data
get_node_by_data_lem {h} {l} xs d is =
    let rounds : l.items + 1 ≡ suc (length xs) = omega (arith, is.count) in
    rw (rounds, is.front) (search_for_lem h null xs d is.chain)

-- What a destruction has done: every cell is given back, and no other cell changes.
abbrev pub Destroyed : Cells → Heap → Heap → Type 0
Destroyed xs h g = (p : Ptr) → g p ≡ (if has p xs then none else h p)

gone_first :
    (h : Heap) (a d : ℕ) (xs : Cells) (p : Ptr)
    → (if has p xs then none else write h a none p) ≡ (if has p ((a, d) ∷ xs) then none else h p)
unfolding write
gone_first h a d xs p = elim (Bool-cases (has p xs)) [
  | inl i ↦ elim (Bool-cases (a == p)) [ inl e ↦ rw (i, e) | inr e ↦ rw (i, e) ]
  | inr o ↦ elim (Bool-cases (a == p)) [
    | inl e ↦
        let same : a ≡ p = ground arith in
        rw (o, e) (subst (λ q. write h a none q ≡ none) same (write_self h a none))
    | inr e ↦ rw (o, e) (write_ne h a none p (ground arith))
  ]
]

destroy_from_lem :
    (h : Heap) (prev : Ptr) (xs : Cells)
    → Chain h prev xs null
    → Distinct xs
    → Ran (λ _. Destroyed xs h) (destroy_from (length xs) (first xs null) h)
unfolding destroy_from
destroy_from_lem h prev [] s ds = record { value = tt; heap = h; returns = refl; post = λ p. refl }
destroy_from_lem h prev ((a, d) ∷ xs) s ds =
    let go =
      destroy_from_lem (write h a none) a xs (Chain-frame h a xs null a none ds.0 s.2) ds.1 in
    record {
      value = go.value;
      heap = go.heap;
      returns = rw (load-some h a _ s.0 s.1, free-some h a _ s.0 s.1) go.returns;
      post = λ p. go.post p ∙ gone_first h a d xs p;
    }

-- Destroying a well-formed list runs without a fault, frees every cell of it and changes no
-- other cell.
pub destroy-Destroyed :
    {h : Heap} {l : LinkedList} (xs : Cells)
    → IsList h l xs
    → Ran (λ _. Destroyed xs h) (destroy l h)
unfolding destroy
destroy-Destroyed {h} xs is =
    rw (is.count, is.front) (destroy_from_lem h null xs is.chain is.distinct)
