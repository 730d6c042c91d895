-- ===== src/Process/Switch.antt =====
-- Round robin: which process a switch chooses, and what it does to the processes.
use fantom_os.Base.{
  ℕ, zero, suc, ◌<◌, ◌≡◌, ◌≢◌, refl, ◌∙◌, ap, subst, Bool, true, false, Option, some, List, [], ◌∷◌,
  ◌++◌, append_assoc, arith, ◌==◌, length, if◌then◌else◌, null, Bool-cases, inl, inr,
}
use fantom_os.NodeHeap.{Ptr, Heap}
use fantom_os.NodeHeap.Alloc.{IsCalloc}
use fantom_os.Task.{Kernel, Pcb, ok, load_pcb, store_pcb, put_pcb, is_runnable}
use fantom_os.Task.Did.{Did}
use fantom_os.Scheduler.Laws.{Queue, OnlyQueue, OnlyQueue-trans, next_process-Turned}
use fantom_os.Process.{pick, switch_to, save_context, leave, set_tss, set_dr0, enter, get_kprocess}

-- the process at an address exists and may or may not run
pub record Runs (k : Kernel) (b : Bool) (p : Ptr) : Type 0 where
  pub not_null : p ≢ null
  pub cell : Pcb
  pub held : k.pcb p ≡ some cell
  pub runnable : is_runnable cell.state ≡ b

abbrev pub AllIdle : Kernel → List ℕ → Type 0
AllIdle k [] = Unit {0}
AllIdle k (d ∷ ds) = Runs k false d × AllIdle k ds

load_pcb-Runs : (k : Kernel) (b : Bool) (p : Ptr) (r : Runs k b p) → load_pcb p k ≡ ok r.cell k
unfolding load_pcb
load_pcb-Runs k b p r = let ne : (p == null) ≡ false = ground (arith, r.not_null) in rw (ne, r.held)

Runs-keep : (k k' : Kernel) (b : Bool) (p : Ptr) → OnlyQueue k k' → Runs k b p → Runs k' b p
Runs-keep k k' b p e r = record {
  not_null = r.not_null;
  cell = r.cell;
  held = ap (λ (s : Kernel). s.pcb p) e ∙ r.held;
  runnable = r.runnable;
}

AllIdle-keep : (k k' : Kernel) (ds : List ℕ) → OnlyQueue k k' → AllIdle k ds → AllIdle k' ds
AllIdle-keep k k' [] e a = tt
AllIdle-keep k k' (d ∷ ds) e a = (Runs-keep k k' false d e a.0, AllIdle-keep k k' ds e a.1)

module _ (calloc : Heap → Ptr) (alloc : IsCalloc calloc) where
  -- With an allocator that meets its laws, if a well-formed queue holds a process that may run
  -- behind fewer processes that may not than there are rounds, the loop that chooses the next
  -- process ends at it, with the processes seen moved to the end of the queue and nothing else
  -- changed.
  pub pick-first :
      (k : Kernel) (ds : List ℕ) (d : ℕ) (rest : List ℕ) (n : ℕ)
      → Queue k (ds ++ d ∷ rest)
      → AllIdle k ds
      → Runs k true d
      → length ds < n
      → Did (λ p k'. (p ≡ d) × Queue k' (rest ++ (ds ++ d ∷ [])) × OnlyQueue k k') (pick calloc n k)
  unfolding pick
  pick-first k ds d rest zero q idle runs h = absurd (omega arith)
  pick-first k [] d rest (suc n) q idle runs h =
      let t = next_process-Turned calloc alloc k d rest q in
      let r = Runs-keep k t.state true d t.post.2 runs in
      record {
        value = d;
        state = t.state;
        returns = rw (t.returns, t.post.0, load_pcb-Runs t.state true d r, r.runnable);
        post = (refl, t.post.1, t.post.2);
      }
  pick-first k (e ∷ ds) d rest (suc n) q idle runs h =
      let t = next_process-Turned calloc alloc k e (ds ++ d ∷ rest) q in
      let r = Runs-keep k t.state false e t.post.2 idle.0 in
      let go =
        pick-first t.state ds d (rest ++ e ∷ []) n
          (subst (λ xs. Queue t.state xs) (append_assoc ds (d ∷ rest) (e ∷ [])) t.post.1)
          (AllIdle-keep k t.state ds t.post.2 idle.1) (Runs-keep k t.state true d t.post.2 runs)
          (omega arith) in
      record {
        value = d;
        state = go.state;
        returns = rw (
          t.returns,
          t.post.0,
          load_pcb-Runs t.state false e r,
          r.runnable,
          go.returns,
          go.post.0,
        );
        post = (
          refl,
          subst (λ xs. Queue go.state xs) (append_assoc rest (e ∷ []) (ds ++ d ∷ [])) go.post.1,
          OnlyQueue-trans k t.state go.state t.post.2 go.post.2,
        );
      }

-- a process whose control block is there
pub record IsProcess (k : Kernel) (p : Ptr) (c : Pcb) : Type 0 where
  pub not_null : p ≢ null
  pub held : k.pcb p ≡ some c

load_pcb-some : (k : Kernel) (p : Ptr) (c : Pcb) → IsProcess k p c → load_pcb p k ≡ ok c k
unfolding load_pcb
load_pcb-some k p c r = let ne : (p == null) ≡ false = ground (arith, r.not_null) in rw (ne, r.held)

put_pcb_ne : (f : Ptr → Option Pcb) (p : Ptr) (c : Pcb) (q : Ptr) → p ≢ q → put_pcb f p c q ≡ f q
unfolding put_pcb
put_pcb_ne f p c q ne = ground arith

pub put_pcb_self : (f : Ptr → Option Pcb) (p : Ptr) (c : Pcb) → put_pcb f p c p ≡ some c
unfolding put_pcb
put_pcb_self f p c = ground arith

-- What a switch from `p` (block `c`) to `q` (block `n`) does, with `kc` the kernel's own block: `q` is
-- current in its address space and on its stack, and `p` has its frame saved. Of the control blocks
-- only that of `p` changes, and the queue not at all.
pub record Switched (k : Kernel) (p q regs : ℕ) (c n kc : Pcb) (k' : Kernel) : Type 0 where
  pub current : k'.current_process ≡ q
  pub space : k'.dir ≡ n.page_dir
  pub stack : k'.dr0 ≡ (if n.id == kc.id then n.kernel_stack.top else n.user_stack.top)
  pub saved : k'.pcb ≡ put_pcb k.pcb p (leave (save_context (c.id == kc.id) regs c))
  pub nodes : k'.nodes ≡ k.nodes
  pub queue : k'.process_list ≡ k.process_list

module _ (k : Kernel) (p q regs : ℕ) (c n kc : Pcb) (ip : IsProcess k p c) (iq : IsProcess k q n)
    (ik : IsProcess k k.kprocess kc) where
  apart_of_ids : c.id ≢ n.id → p ≢ q
  apart_of_ids ne e = ne (ground (arith, ip.held, iq.held, ap k.pcb e))

  -- the state after the outgoing process is written back
  abbrev written : Kernel
  written = record k { pcb = put_pcb k.pcb p (leave (save_context (c.id == kc.id) regs c)) }

  incoming : c.id ≢ n.id → IsProcess written q n
  incoming ne = record {
    not_null = iq.not_null;
    held = put_pcb_ne k.pcb p _ q (apart_of_ids ne) ∙ iq.held;
  }

  pub switch_to-Switched :
      c.id ≢ n.id → Did (λ _. Switched k p q regs c n kc) (switch_to p q regs k)
  unfolding switch_to get_kprocess set_tss set_dr0 enter store_pcb
  switch_to-Switched ne =
      let test : (c.id == n.id) ≡ false = ground arith in
      let load_p = load_pcb-some k p c ip in
      let load_q = load_pcb-some k q n iq in
      let load_k = load_pcb-some k k.kprocess kc ik in
      let again = load_pcb-some written q n (incoming ne) in
      elim (Bool-cases (n.id == kc.id)) [
        | inl kernel ↦ record {
          value = tt;
          state = record written {
            dr0 = n.kernel_stack.top;
            current_process = q;
            dir = n.page_dir;
          };
          returns = rw (load_p, load_q, load_k, test, again, kernel);
          post = record {
            current = refl;
            space = refl;
            stack = rw kernel;
            saved = refl;
            nodes = refl;
            queue = refl;
          };
        }
        | inr user ↦ record {
          value = tt;
          state = record written {
            tss_ss0 = 0x10;
            tss_esp0 = n.kernel_stack.top;
            dr0 = n.user_stack.top;
            current_process = q;
            dir = n.page_dir;
          };
          returns = rw (load_p, load_q, load_k, test, again, user);
          post = record {
            current = refl;
            space = refl;
            stack = rw user;
            saved = refl;
            nodes = refl;
            queue = refl;
          };
        }
      ]

  -- With the same identifier on both sides the switch does nothing.
  pub switch_to_same : c.id ≡ n.id → switch_to p q regs k ≡ ok tt k
  unfolding switch_to get_kprocess
  switch_to_same e =
      let test : (c.id == n.id) ≡ true = ground arith in
      rw (load_pcb-some k p c ip, load_pcb-some k q n iq, load_pcb-some k k.kprocess kc ik, test)
