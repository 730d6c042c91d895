-- ===== src/NodeHeap/Steps.antt =====
-- One rule for each access to a node that is there.
use fantom_os.Base.{◌≡◌, ◌≢◌, false, none, some, arith, ◌==◌, null}
use fantom_os.NodeHeap.{Ptr, ListNode, Heap, write, load, set_next, set_prev, free}

pub not_null : (p : Ptr) → p ≢ null → (p == null) ≡ false
not_null p ne = ground arith

module _ (h : Heap) (p : Ptr) (n : ListNode) (ne : p ≢ null) (held : h p ≡ some n) where
  pub load-some : load p h ≡ some (n, h)
  unfolding load
  load-some = rw (not_null p ne, held)

  pub set_next-some :
      (q : Ptr) → set_next p q h ≡ some (tt, write h p (some (record n { next_node = q })))
  unfolding set_next
  set_next-some q = rw load-some

  pub set_prev-some :
      (q : Ptr) → set_prev p q h ≡ some (tt, write h p (some (record n { prev_node = q })))
  unfolding set_prev
  set_prev-some q = rw load-some

  pub free-some : free p h ≡ some (tt, write h p none)
  unfolding free
  free-some = rw load-some
