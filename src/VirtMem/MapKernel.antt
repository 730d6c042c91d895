-- ===== src/VirtMem/MapKernel.antt =====
-- `VirtMem_Paging_init`: the loop that maps the kernel's first 4 MB, while pages are 4 MB large.
use fantom_os.Base.{
  ℕ, zero, suc, ◌+◌, ◌-◌, ◌*◌, ◌/◌, ◌%◌, ◌^◌, ◌≤◌, ◌<◌, ◌≡◌, ◌≢◌, ◌⊎◌, inl, inr, ◌∙◌, ap, refl,
  true, false, some, Bool-cases, arith, ◌==◌,
}
use fantom_os.VirtMem.{init_entry, map_page, map_kernel}
use fantom_os.VirtMem.Machine.{Entry, Vm, put}
use fantom_os.VirtMem.Window.{with_frames, put_other, put_here}
use fantom_os.VirtMem.Large.{map_page-large}

-- The pages of the loop from the `i`th on: what the table at the frame `t` is left with.
pub record Filled (s s' : Vm) (t i n : ℕ) : Type 0 where
  pub large : s'.pse_enabled ≡ true
  pub supply : s'.supply ≡ s.supply
  pub mapped : (j : ℕ) → i ≤ j → j < i + n → s'.frames t j ≡ init_entry (j * 4096) 1 0
  pub same : (f j : ℕ) → (f ≢ t) ⊎ (j < i) → s'.frames f j ≡ s.frames f j

-- The directory's entry for the window.
pub record HasTable (s : Vm) (kdir t : ℕ) : Type 0 where
  pub there : (s.frames (kdir / 2 ^ 12) 768).present ≡ true
  pub frame : (s.frames (kdir / 2 ^ 12) 768).page_address ≡ t

pub record Kernel (s s' : Vm) (kdir t i n : ℕ) : Type 0 where
  pub returns : map_kernel n kdir (0xC0000000 + i * 4096) s ≡ some (tt, s')
  pub filled : Filled s s' t i n

-- one page of the loop, but the first
map_kernel_page :
    (s : Vm) (kdir t i : ℕ)
    → s.pse_enabled ≡ true
    → kdir < 0x400000
    → t < 1024
    → HasTable s kdir t
    → 0 < i
    → i < 1024
    → map_page kdir (0xC0000000 + i * 4096) (0xC0000000 + i * 4096 - 0xC0000000) 1 0 s
      ≡ some (i * 4096, with_frames s (put s.frames t i (init_entry (i * 4096) 1 0)))
map_kernel_page s kdir t i large low small h pos fits =
    let vaddr = 0xC0000000 + i * 4096 in
    let d : vaddr / 2 ^ 22 ≡ 768 = omega arith in
    let x : vaddr / 2 ^ 12 % 1024 ≡ i = omega arith in
    let page : vaddr - 0xC0000000 ≡ i * 4096 = omega arith in
    let some_page : (i * 4096 == 0) ≡ false = ground arith in
    let run =
      map_page-large s {p = i * 4096} {l = s.supply} kdir vaddr (i * 4096) large low
        (rw some_page refl) (rw (d, h.there) refl) (rw (d, h.frame) small) in
    rw page (run ∙ rw (d, x, h.frame) refl)

pub map_kernel_run :
    (n : ℕ) (s : Vm) (kdir t i : ℕ)
    → s.pse_enabled ≡ true
    → kdir < 0x400000
    → t < 1024
    → t ≢ kdir / 2 ^ 12
    → HasTable s kdir t
    → 0 < i
    → i + n ≤ 1024
    → (s' : Vm) × Kernel s s' kdir t i n
unfolding map_kernel
map_kernel_run zero s kdir t i large low small apart h pos fits = (
  s,
  record {
    returns = refl;
    filled = record {
      large = large;
      supply = refl;
      mapped = λ j lo hi. absurd (omega arith);
      same = λ f j o. refl;
    };
  },
)
map_kernel_run (suc n) s kdir t i large low small apart h pos fits =
    let vaddr = 0xC0000000 + i * 4096 in
    let e = init_entry (i * 4096) 1 0 in
    let one = with_frames s (put s.frames t i e) in
    let dir_same = put_other s.frames t i e (kdir / 2 ^ 12) 768 (inl apart) in
    let h' : HasTable one kdir t = record {
      there = ap (λ (a : Entry). a.present) dir_same ∙ h.there;
      frame = ap (λ (a : Entry). a.page_address) dir_same ∙ h.frame;
    } in
    let rest =
      map_kernel_run n one kdir t (i + 1) large low small apart h' (omega arith) (omega arith) in
    let page = map_kernel_page s kdir t i large low small h pos (omega arith) in
    let next : vaddr + 4096 ≡ 0xC0000000 + (i + 1) * 4096 = omega arith in
    let f = rest.1.filled in
    (
      rest.0,
      record {
        returns = rw (page, next, rest.1.returns) refl;
        filled = record {
          large = f.large;
          supply = f.supply;
          mapped = λ j lo hi. elim (Bool-cases (i == j)) [
            | inl here ↦
                let e : i ≡ j = ground arith in
                rw (← e) (f.same t i (inr (omega arith)) ∙ put_here s.frames t i _)
            | inr other ↦ let e : i ≢ j = ground arith in f.mapped j (omega arith) (omega arith)
          ];
          same =
              λ f' j o. f.same f' j (ground arith) ∙ put_other s.frames t i _ f' j (ground arith);
        };
      },
    )
