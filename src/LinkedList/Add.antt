-- ===== src/LinkedList/Add.antt =====
-- LinkedList_addNode appends.
use fantom_os.Base.{
  ℕ, ◌+◌, ◌^◌, ◌<◌, ◌≡◌, ◌≢◌, refl, false, true, none, some, [], ◌∷◌, ◌++◌, arith, ◌==◌, length,
  length-append, null, u32, ◌∙◌, sym,
}
use fantom_os.NodeHeap.{Ptr, node, Heap, write}
use fantom_os.NodeHeap.Ran.{Ran}
use fantom_os.NodeHeap.Steps.{set_next-some, set_prev-some}
use fantom_os.LinkedList.{LinkedList, add_node}
use fantom_os.LinkedList.Seg.{
  Cells, SameOutside, has, last, IsList, Chain-frame, Chain-join, Relinked, relink_last,
  Distinct-snoc, has_of_none, last-append, write_self, write_ne, ne_of_has, has_parts,
}

-- What an append has done: the cell stands behind the others, and nothing outside the list changed.
abbrev pub Added : Heap → Cells → Ptr × ℕ → LinkedList → Heap → Type 0
Added h xs c l g = IsList g l (xs ++ c ∷ []) × SameOutside (xs ++ c ∷ []) h g

module _ {h : Heap} {l : LinkedList} (item d : ℕ) (ne : item ≢ null) (fresh : h item ≡ none) where
  add_first : IsList h l [] → Ran (Added h [] (item, d)) (add_node item l d h)
  unfolding add_node
  add_first is =
      let empty : (l.items == 0) ≡ true = ground (arith, is.count) in
      record {
        value = record { items = 1; front = item; back = item };
        heap = write h item (some (node d null null));
        returns = rw empty (ground (arith, is.count));
        post = (
          record {
            count = refl;
            small = omega arith;
            front = refl;
            back = refl;
            chain = (ne, write_self h item _, tt);
            distinct = (refl, tt);
          },
          λ p out. write_ne h item _ p (ground arith),
        );
      }

  module _ (x : Ptr × ℕ) (xs : Cells) (is : IsList h l (x ∷ xs)) where
    abbrev end_of : Ptr
    end_of = last null (x ∷ xs)

    -- the heap before the old end is linked to the new cell
    abbrev linked : Heap
    linked = write (write h item (some (node d null null))) item (some (node d null end_of))

    out : has item (x ∷ xs) ≡ false
    out = has_of_none h null (x ∷ xs) null item fresh is.chain

    relinked : Relinked linked null (x ∷ xs) null item
    relinked = relink_last linked null x xs null item is.distinct (
        Chain-frame _ null (x ∷ xs) null item _ out
          (Chain-frame h null (x ∷ xs) null item _ out is.chain))

    abbrev grown : Heap
    grown = write linked end_of (some (record relinked.cell { next_node = item }))

    add_more-runs :
        add_node item l d h
        ≡ some (record { items = u32 (l.items + 1); front = l.front; back = item }, grown)
    unfolding add_node
    add_more-runs =
        let more : (l.items == 0) ≡ false = ground (arith, is.count) in
        rw (
          more,
          is.back,
          set_prev-some _ item (node d null null) ne (write_self h item _) end_of,
          set_next-some _ end_of relinked.cell relinked.not_null relinked.held item,
        )

    grown_outside : SameOutside ((x ∷ xs) ++ (item, d) ∷ []) h grown
    grown_outside p o =
        let apart = has_parts p (x ∷ xs) ((item, d) ∷ []) o in
        let not_item = ne_of_has item p ((item, d) ∷ []) (ground arith) apart.1 in
        write_ne linked end_of _ p (ne_of_has _ p (x ∷ xs) relinked.inside apart.0)
        ∙ write_ne _ item _ p not_item
        ∙ write_ne h item _ p not_item

    add_more : length (x ∷ xs) + 1 < 2 ^ 32 → Ran (Added h (x ∷ xs) (item, d)) (add_node item l d h)
    add_more room = record {
      value = record { items = u32 (l.items + 1); front = l.front; back = item };
      heap = grown;
      returns = add_more-runs;
      post = (
        record {
          count = omega (arith, is.count, length-append (x ∷ xs) ((item, d) ∷ []));
          small = omega (arith, length-append (x ∷ xs) ((item, d) ∷ []));
          front = is.front;
          back = sym (last-append null (x ∷ xs) ((item, d) ∷ []));
          chain = Chain-join grown null (x ∷ xs) ((item, d) ∷ []) null relinked.chain (
            ne,
            write_ne linked end_of _ item (ne_of_has _ item (x ∷ xs) relinked.inside out)
                ∙ write_self _ item _,
            tt,
          );
          distinct = Distinct-snoc (x ∷ xs) item d is.distinct out;
        },
        grown_outside,
      );
    }

-- Given an unused cell and a well-formed list that has room in its 32-bit count, adding a node
-- returns and appends its data to the list; the cells of the list stay and no cell outside the
-- list changes.
pub add_node-Added :
    {h : Heap} {l : LinkedList} (item d : ℕ) (xs : Cells)
    → item ≢ null
    → h item ≡ none
    → IsList h l xs
    → length xs + 1 < 2 ^ 32
    → Ran (Added h xs (item, d)) (add_node item l d h)
add_node-Added item d [] ne fresh is room = add_first item d ne fresh is
add_node-Added item d (x ∷ xs) ne fresh is room = add_more item d ne fresh x xs is room
