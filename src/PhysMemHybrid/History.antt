-- ===== src/PhysMemHybrid/History.antt =====
-- src/modules/physmem_hybrid/PhysMem_Hybrid.c: the allocator over a sequence of calls, with the
-- pages that its callers hold.
use fantom_os.Base.{
  ℕ, ◌*◌, ◌/◌, ◌<◌, ◌≡◌, ◌∙◌, refl, true, ◌||◌, List, ◌∷◌, arith, ◌==◌, Bool-cases, inl, inr,
  page_size,
}
use fantom_os.PhysMemBitmap.{page}
use fantom_os.PhysMemHybrid.{Hybrid, max_phys_stack, free, allocate}
use fantom_os.PhysMemHybrid.Laws.{IsValid, is_free, allocate-Taken, free-Released}
use fantom_os.PhysMemHybrid.Room.{room_of_held}
use fantom_os.PhysMemHybrid.Held.{
  holds, without, Held, used_of_Held, Held-mono, Held-without, holds_given,
}

-- The allocator and the pages its callers hold.
pub record Use : Type 0 where
  pub hybrid : Hybrid
  pub held : List ℕ

-- A caller gets the page that an allocation returns, and gives back a page that it holds.
pub data Step (u : Use) : Use → Type 0 where
  got :
      (address : ℕ)
      → (allocate u.hybrid).0 ≡ page address
      → Step u (record { hybrid = (allocate u.hybrid).1; held = address / page_size ∷ u.held })
  gave :
      (k : ℕ)
      → holds k u.held ≡ true
      → Step u (record { hybrid = free u.hybrid (k * page_size); held = without k u.held })

pub data Reach (u : Use) : Use → Type 0 where
  start : Reach u u
  later : {s t : Use} → Reach u s → Step s t → Reach u t

pub record IsSound (u : Use) : Type 0 where
  pub valid : IsValid u.hybrid
  pub full : u.hybrid.stack.max_elements ≡ max_phys_stack
  pub held : Held u.hybrid u.held

-- What calls leave: the state stays sound, and a page is free or held as often as it was.
pub record Kept (u t : Use) : Type 0 where
  pub sound : IsSound t
  pub same_map : t.hybrid.bitmap ≡ u.hybrid.bitmap
  pub conserved :
      (j : ℕ)
      → j < u.hybrid.bitmap.bytes * 8
      → (is_free t.hybrid j || holds j t.held) ≡ (is_free u.hybrid j || holds j u.held)

pub max_elements-free : (h : Hybrid) (a : ℕ) → (free h a).stack.max_elements ≡ h.stack.max_elements
unfolding free fantom_os.Stack.push
max_elements-free h a = ground arith

max_elements-allocate : (h : Hybrid) → (allocate h).1.stack.max_elements ≡ h.stack.max_elements
unfolding allocate fantom_os.Stack.pop
max_elements-allocate h = ground arith

module _ (u : Use) (s : IsSound u) where
  got-Kept :
      (address : ℕ)
      → (allocate u.hybrid).0 ≡ page address
      → Kept u (record { hybrid = (allocate u.hybrid).1; held = address / page_size ∷ u.held })
  got-Kept address e =
      let t = allocate-Taken address s.valid e in
      let h = u.hybrid in
      let h' = (allocate u.hybrid).1 in
      let k = address / page_size in
      record {
        sound = record {
          valid = t.valid;
          full = max_elements-allocate h ∙ s.full;
          held = (
            rw t.same_map t.in_map,
            ground (arith, t.takes k t.in_map),
            elim (Bool-cases (holds k u.held)) [
              | inl on ↦
                  let used = used_of_Held h u.held k s.held on in
                  absurd (ground (arith, t.was_free))
              | inr off ↦ off
            ],
            Held-mono h h' u.held t.same_map
                (λ j on used.
                  let inside = (used_of_Held h u.held j s.held on).0 in
                  ground (arith, t.takes j inside))
                s.held,
          );
        };
        same_map = t.same_map;
        conserved = λ j hj. elim (Bool-cases (k == j)) [
          | inl here ↦
              let same : k ≡ j = ground arith in
              rw (t.takes j hj, here) (rw (← same, t.was_free) refl)
          | inr other ↦ rw (t.takes j hj, other) refl
        ];
      }

  gave-Kept :
      (k : ℕ)
      → holds k u.held ≡ true
      → Kept u (record { hybrid = free u.hybrid (k * page_size); held = without k u.held })
  gave-Kept k on =
      let h = u.hybrid in
      let used = used_of_Held h u.held k s.held on in
      let h' = free h (k * page_size) in
      let f = free-Released k s.valid used.0 (room_of_held k s.valid s.full used.1) used.1 in
      record {
        sound = record {
          valid = f.valid;
          full = max_elements-free h (k * page_size) ∙ s.full;
          held =
              Held-mono h h' (without k u.held) f.same_map
                (λ j left used'.
                  let gone = holds_given h j k u.held s.held on in
                  let inside =
                    (used_of_Held h (without k u.held) j (Held-without h k u.held s.held) left).0 in
                  ground (arith, f.frees j inside))
                (Held-without h k u.held s.held);
        };
        same_map = f.same_map;
        conserved = λ j hj.
            let gone = holds_given h j k u.held s.held on in
            elim (Bool-cases (k == j)) [
              | inl here ↦
                  let same : k ≡ j = ground arith in
                  rw (f.frees j hj, here) (rw (← same, on) (ground arith))
              | inr other ↦ rw (f.frees j hj, gone, other) refl
            ];
      }

-- T
pub Step-Kept : {u t : Use} → IsSound u → Step u t → Kept u t
Step-Kept {u} s (got address e) = got-Kept u s address e
Step-Kept {u} s (gave k on) = gave-Kept u s k on

-- From a well-formed state with a stack of full size, in which the callers hold pages of the map
-- that are not free, each once, any sequence of allocations that return a page and of releases
-- of held pages leads to such a state again, so no page is held twice and no release meets a
-- full stack, and a page of the map is free or held after the sequence just if it was before.
pub Reach-Kept : {u t : Use} → IsSound u → Reach u t → Kept u t
Reach-Kept {u} s start = record { sound = s; same_map = refl; conserved = λ j hj. refl }
Reach-Kept {u} s (later r x) =
    let k = Reach-Kept s r in
    let last = Step-Kept k.sound x in
    record {
      sound = last.sound;
      same_map = last.same_map ∙ k.same_map;
      conserved = λ j hj. last.conserved j (rw k.same_map hj) ∙ k.conserved j hj;
    }
