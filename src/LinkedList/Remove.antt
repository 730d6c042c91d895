-- ===== src/LinkedList/Remove.antt =====
-- LinkedList_removeNode takes its cell out of the list, wherever it stands.
use fantom_os.Base.{
  ℕ, ◌≡◌, ◌≢◌, refl, false, true, none, some, [], ◌∷◌, ◌++◌, arith, ◌==◌, length-append, null,
  sub_u32, ◌∙◌, sym,
}
use fantom_os.NodeHeap.{ListNode, Ptr, node, Heap, write}
use fantom_os.NodeHeap.Ran.{Ran}
use fantom_os.NodeHeap.Steps.{load-some, set_next-some, set_prev-some, free-some}
use fantom_os.LinkedList.{LinkedList, unlink, remove_node}
use fantom_os.LinkedList.Seg.{
  Cells, SameOutside, has, first, last, Chain, IsList, Chain-frame, Chain-split, Chain-join,
  Relinked, relink_last, relink_first, Distinct, Distinct-split, Distinct-drop, apart_of_middle,
  apart_of_append, apart_back, has-last, last-append, first-append, write_ne, ne_of_has, has_parts,
  has-append,
}

-- The chain without the cell `a` of data `d`, which still holds its node.
pub record Unlinked (h : Heap) (xs : Cells) (a d : ℕ) (ys : Cells) (l : LinkedList) (g : Heap)
    : Type 0 where
  pub before : Chain g null xs (first ys null)
  pub after : Chain g (last null xs) ys null
  pub front : l.front ≡ first (xs ++ ys) null
  pub back : l.back ≡ last null (xs ++ ys)
  pub cell : g a ≡ h a
  pub outside : SameOutside (xs ++ ys) h g

-- What the four cases share.
record Parts (h : Heap) (l : LinkedList) (xs : Cells) (a d : ℕ) (ys : Cells) : Type 0 where
  before : Chain h null xs a
  not_null : a ≢ null
  held : h a ≡ some (node d (first ys null) (last null xs))
  after : Chain h a ys null
  front : l.front ≡ first xs a
  back : l.back ≡ last a ys
  before_distinct : Distinct xs
  after_distinct : Distinct ys
  not_before : has a xs ≡ false
  not_after : has a ys ≡ false
  whole : Distinct (xs ++ (a, d) ∷ ys)

cut_at :
    {h : Heap} {l : LinkedList} (xs : Cells) (a d : ℕ) (ys : Cells)
    → IsList h l (xs ++ (a, d) ∷ ys)
    → Parts h l xs a d ys
cut_at {h} xs a d ys is =
    let chain = Chain-split h null xs ((a, d) ∷ ys) null is.chain in
    let distinct = Distinct-split xs ((a, d) ∷ ys) is.distinct in
    let apart = apart_of_middle xs a d ys is.distinct in
    record {
      before = chain.0;
      not_null = chain.1.0;
      held = chain.1.1;
      after = chain.1.2;
      front = is.front ∙ first-append xs ((a, d) ∷ ys) null;
      back = is.back ∙ last-append null xs ((a, d) ∷ ys);
      before_distinct = distinct.0;
      after_distinct = distinct.1.1;
      not_before = apart.0;
      not_after = apart.1;
      whole = is.distinct;
    }

eq_test : (a b : ℕ) → a ≡ b → (a == b) ≡ true
eq_test a b e = ground arith

ne_test : (a b : ℕ) → b ≢ a → (a == b) ≡ false
ne_test a b e = ground arith

module _ {h : Heap} {l : LinkedList} (a d : ℕ) where
  -- the only node
  unlink_only : Parts h l [] a d [] → Ran (Unlinked h [] a d []) (unlink l a h)
  unfolding unlink
  unlink_only p = record {
    value = record l { front = null; back = null };
    heap = h;
    returns = rw (eq_test a l.front (sym p.front), eq_test a l.back (sym p.back));
    post = record {
      before = tt;
      after = tt;
      front = refl;
      back = refl;
      cell = refl;
      outside = λ q o. refl;
    };
  }

  -- the first of several
  unlink_first :
      (b e : ℕ) (ys : Cells)
      → Parts h l [] a d ((b, e) ∷ ys)
      → Ran (Unlinked h [] a d ((b, e) ∷ ys)) (unlink l a h)
  unfolding unlink
  unlink_first b e ys p =
      let not_last = ne_of_has _ a ((b, e) ∷ ys) (has-last a (b, e) ys) p.not_after in
      let not_back : (a == l.back) ≡ false = ne_test a l.back (rw p.back not_last) in
      let b_not_a = ne_of_has b a ((b, e) ∷ ys) (ground arith) p.not_after in
      record {
        value = record l { front = b };
        heap = write h b (some (node e (first ys null) null));
        returns = rw (
          eq_test a l.front (sym p.front),
          not_back,
          load-some h a _ p.not_null p.held,
          set_prev-some h b _ p.after.0 p.after.1 null,
        );
        post = record {
          before = tt;
          after = relink_first h a b e ys null null p.after_distinct p.after;
          front = refl;
          back = p.back;
          cell = write_ne h b _ a b_not_a;
          outside = λ q o. write_ne h b _ q (ne_of_has b q ((b, e) ∷ ys) (ground arith) o);
        };
      }

  -- the last of several
  module _ (x : Ptr × ℕ) (xs : Cells) (p : Parts h l (x ∷ xs) a d []) where
    new_end : Relinked h null (x ∷ xs) a null
    new_end = relink_last h null x xs a null p.before_distinct p.before

    unlink_last : Ran (Unlinked h (x ∷ xs) a d []) (unlink l a h)
    unfolding unlink
    unlink_last =
        let end_of = last null (x ∷ xs) in
        let first_not_a = ne_of_has x.0 a (x ∷ xs) (ground arith) p.not_before in
        let end_not_a = ne_of_has end_of a (x ∷ xs) new_end.inside p.not_before in
        record {
          value = record l { back = end_of };
          heap = write h end_of (some (record new_end.cell { next_node = null }));
          returns = rw (
            ne_test a l.front (rw p.front first_not_a),
            eq_test a l.back (sym p.back),
            load-some h a _ p.not_null p.held,
            set_next-some h end_of new_end.cell new_end.not_null new_end.held null,
          );
          post = record {
            before = new_end.chain;
            after = tt;
            front = p.front ∙ sym (first-append (x ∷ xs) [] null);
            back = sym (last-append null (x ∷ xs) []);
            cell = write_ne h end_of _ a end_not_a;
            outside = λ q o.
                write_ne h end_of _ q
                  (ne_of_has end_of q (x ∷ xs) new_end.inside (has_parts q (x ∷ xs) [] o).0);
          };
        }

  -- one between two others
  module _ (x : Ptr × ℕ) (xs : Cells) (b e : ℕ) (ys : Cells)
      (p : Parts h l (x ∷ xs) a d ((b, e) ∷ ys)) where
    -- after `tmpN->prevNode = tmpP`
    abbrev joined : Heap
    joined = write h b (some (node e (first ys null) (last null (x ∷ xs))))

    b_not_before : has b (x ∷ xs) ≡ false
    b_not_before = apart_of_append b (x ∷ xs) ((a, d) ∷ (b, e) ∷ ys) p.whole (ground arith)

    new_link : Relinked joined null (x ∷ xs) a b
    new_link =
        relink_last joined null x xs a b p.before_distinct
          (Chain-frame h null (x ∷ xs) a b _ b_not_before p.before)

    end_not_after : has (last null (x ∷ xs)) ((a, d) ∷ (b, e) ∷ ys) ≡ false
    end_not_after =
        apart_back (last null (x ∷ xs)) (x ∷ xs) ((a, d) ∷ (b, e) ∷ ys) p.whole new_link.inside

    unlink_middle : Ran (Unlinked h (x ∷ xs) a d ((b, e) ∷ ys)) (unlink l a h)
    unfolding unlink
    unlink_middle =
        let end_of = last null (x ∷ xs) in
        let rest_apart = has_parts end_of ((a, d) ∷ []) ((b, e) ∷ ys) end_not_after in
        let first_not_a = ne_of_has x.0 a (x ∷ xs) (ground arith) p.not_before in
        let back_not_a = ne_of_has _ a ((b, e) ∷ ys) (has-last a (b, e) ys) p.not_after in
        let b_not_a = ne_of_has b a ((b, e) ∷ ys) (ground arith) p.not_after in
        let end_not_a = ne_of_has end_of a (x ∷ xs) new_link.inside p.not_before in
        record {
          value = l;
          heap = write joined end_of (some (record new_link.cell { next_node = b }));
          returns = rw (
            ne_test a l.front (rw p.front first_not_a),
            ne_test a l.back (rw p.back back_not_a),
            load-some h a _ p.not_null p.held,
            set_prev-some h b _ p.after.0 p.after.1 end_of,
            set_next-some joined end_of new_link.cell new_link.not_null new_link.held b,
          );
          post = record {
            before = new_link.chain;
            after =
                Chain-frame joined end_of ((b, e) ∷ ys) null end_of _ rest_apart.1
                  (relink_first h a b e ys null end_of p.after_distinct p.after);
            front = p.front;
            back = p.back ∙ sym (last-append null (x ∷ xs) ((b, e) ∷ ys));
            cell = write_ne joined end_of _ a end_not_a ∙ write_ne h b _ a b_not_a;
            outside = λ q o.
                let apart = has_parts q (x ∷ xs) ((b, e) ∷ ys) o in
                write_ne joined end_of _ q (ne_of_has end_of q (x ∷ xs) new_link.inside apart.0)
                ∙ write_ne h b _ q (ne_of_has b q ((b, e) ∷ ys) (ground arith) apart.1);
          };
        }

  unlink_lem : (xs ys : Cells) → Parts h l xs a d ys → Ran (Unlinked h xs a d ys) (unlink l a h)
  unlink_lem [] [] p = unlink_only p
  unlink_lem [] ((b, e) ∷ ys) p = unlink_first b e ys p
  unlink_lem (x ∷ xs) [] p = unlink_last x xs p
  unlink_lem (x ∷ xs) ((b, e) ∷ ys) p = unlink_middle x xs b e ys p

-- The cell of a node was given back just before.
pub record Freed (a : Ptr) (g : Heap) : Type 0 where
  pub before : Heap
  pub cell : ListNode
  pub held : before a ≡ some cell
  pub given_back : g ≡ write before a none

-- What a removal has done: the list is that of the other cells in their order, the data is returned,
-- the cell is given back last, and no cell outside the list changes.
abbrev pub Removed : Heap → Cells → Ptr → ℕ → Cells → ℕ × LinkedList → Heap → Type 0
Removed h xs a d ys (out, l) g =
    (out ≡ d) × IsList g l (xs ++ ys) × Freed a g × SameOutside (xs ++ (a, d) ∷ ys) h g

-- Removing a node of a well-formed list, first, last, between or alone, returns its data, leaves
-- the list of the others in their order, frees its cell and changes no cell outside the list.
pub remove_node-Removed :
    {h : Heap} {l : LinkedList} (xs : Cells) (a d : ℕ) (ys : Cells)
    → IsList h l (xs ++ (a, d) ∷ ys)
    → Ran (Removed h xs a d ys) (remove_node l a h)
unfolding remove_node
remove_node-Removed {h} {l} xs a d ys is =
    let p = cut_at xs a d ys is in
    let u = unlink_lem a d xs ys p in
    let held = u.post.cell ∙ p.held in
    let g = write u.heap a none in
    let size = length-append xs ((a, d) ∷ ys) in
    record {
      value = (d, record u.value { items = sub_u32 l.items 1 });
      heap = g;
      returns =
          rw
            (u.returns, load-some u.heap a _ p.not_null held, free-some u.heap a _ p.not_null held);
      post = (
        refl,
        record {
          count = omega (arith, is.count, is.small, size, length-append xs ys);
          small = omega (arith, is.small, size, length-append xs ys);
          front = u.post.front;
          back = u.post.back;
          chain =
              Chain-join g null xs ys null
                (Chain-frame u.heap null xs (first ys null) a none p.not_before u.post.before)
                (Chain-frame u.heap (last null xs) ys null a none p.not_after u.post.after);
          distinct = Distinct-drop xs (a, d) ys is.distinct;
        },
        record { before = u.heap; cell = _; held = held; given_back = refl },
        λ q o.
            let apart = has_parts q xs ((a, d) ∷ ys) o in
            let later = has_parts q ((a, d) ∷ []) ys apart.1 in
            write_ne u.heap a none q (ne_of_has a q ((a, d) ∷ []) (ground arith) later.0)
            ∙ u.post.outside q (rw (has-append, apart.0, later.1)),
      );
    }
