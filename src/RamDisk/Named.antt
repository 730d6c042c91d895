-- ===== src/RamDisk/Named.antt =====
-- The files of an archive by their names: in the parser, in the device's list, and among the mounts.
use fantom_os.Base.{
  ℕ, zero, suc, ◌+◌, ◌*◌, ◌<◌, ◌≡◌, ◌≢◌, inl, inr, refl, ◌∙◌, ap, sym, Option, none, some, List, [],
  ◌∷◌, ◌++◌, arith, ◌==◌, Bool-cases, true, false, length,
}
use fantom_os.Memory.{Mem, IsBytes}
use fantom_os.Tar.Laws.{header_of, blocks, count_headers-length}
use fantom_os.Tar.Laws
use fantom_os.Vfs.{Node, Device, Mounts, name_cmp, find_in, find_node, open_file, first_of}
use fantom_os.Vfs.Laws.{
  IsName, name_cmp_iff, AllNamed, NoneNamed, Search, found, missing, FirstNamed, here, there,
  all_files, open_file-Search,
}
use fantom_os.RamDisk.Scan.{Files, NameAt, Archive, nodes_from, first_byte}

abbrev pub sizes_of : Files → List ℕ
sizes_of [] = []
sizes_of ((name, size) ∷ files) = size ∷ sizes_of files

-- The first file with a name, and its number.
abbrev pub Place : Files → ℕ → List ℕ → ℕ → Type 0
Place [] i name size = ⊥
Place ((n, s) ∷ files) zero name size = (n ≡ name) × (s ≡ size)
Place ((n, s) ∷ files) (suc i) name size = (n ≢ name) × Place files i name size

pub length-sizes_of : (files : Files) → length (sizes_of files) ≡ length files
length-sizes_of [] = refl
length-sizes_of ((name, size) ∷ files) = ap suc (length-sizes_of files)

pub Place-bound :
    (files : Files) (i : ℕ) (name : List ℕ) (size : ℕ) → Place files i name size → i < length files
Place-bound [] i name size p = elim p [ ]
Place-bound ((n, s) ∷ files) zero name size p = omega arith
Place-bound ((n, s) ∷ files) (suc i) name size p = omega (arith, Place-bound files i name size p.1)

-- The archive as the parser sees it.
pub headers_of :
    (m : Mem) (header : ℕ) (files : Files)
    → Archive m header files
    → Laws.Archive m header (sizes_of files)
headers_of m header [] a = a
headers_of m header ((name, size) ∷ files) a = (
  first_byte m header name a.0 a.1,
  a.3,
  a.4,
  headers_of m (header + 512 * (1 + blocks size)) files a.5,
)

NameAt-IsName : (m : Mem) (src : ℕ) (name : List ℕ) → IsBytes m → NameAt m src name → IsName name
NameAt-IsName m src [] b n = tt
NameAt-IsName m src (c ∷ cs) b n =
    let byte = b src in
    (ground (arith, n.1), ground (arith, n.0, byte), NameAt-IsName m (src + 1) cs b n.2)

abbrev pub node_of : List ℕ → ℕ → ℕ → Node
node_of name size i = record { file_size = size; filename = name; idx = i }

-- The lookup in the nodes of the files, numbered from `k` on.
pub find_in-nodes :
    (m : Mem) (header : ℕ) (files : Files) (k i : ℕ) (name : List ℕ) (size : ℕ)
    → IsBytes m
    → Archive m header files
    → IsName name
    → Place files i name size
    → find_in (nodes_from k files) name
      ≡ some (record { file_size = size; filename = name; idx = k + i })
unfolding find_in
find_in-nodes m header [] k i name size b a h p = elim p [ ]
find_in-nodes m header ((n, s) ∷ files) k zero name size b a h p =
    let named = NameAt-IsName m header n b a.1 in
    let equal = (name_cmp_iff name n h named).1 (sym p.0) in
    let test : (name_cmp name n == 0) ≡ true = ground (arith, equal) in
    let number : k ≡ k + 0 = omega arith in
    rw test (
      ap (λ (c : List ℕ). some (node_of c s k)) p.0
      ∙ ap (λ (z : ℕ). some (node_of name z k)) p.1
      ∙ ap (λ (j : ℕ). some (node_of name size j)) number)
find_in-nodes m header ((n, s) ∷ files) k (suc i) name size b a h p =
    let named = NameAt-IsName m header n b a.1 in
    let differ : (name_cmp name n == 0) ≡ false = elim (Bool-cases (name_cmp name n == 0)) [
      | inl e ↦ absurd (p.0 (sym ((name_cmp_iff name n h named).0 (ground arith))))
      | inr e ↦ e
    ] in
    let later =
      find_in-nodes m (header + 512 * (1 + blocks s)) files (k + 1) i name size b a.5 h p.1 in
    let number : k + 1 + i ≡ k + suc i = omega arith in rw differ (rw number at later)

first_of_assoc : (a b c : Option Node) → first_of a (first_of b c) ≡ first_of (first_of a b) c
first_of_assoc none b c = refl
first_of_assoc (some n) b c = refl

open_file-append :
    (ms ns : Mounts) (name : List ℕ)
    → open_file (ms ++ ns) name ≡ first_of (open_file ms name) (open_file ns name)
unfolding open_file
open_file-append [] ns name = refl
open_file-append (d ∷ ms) ns name =
    ap (first_of (find_node d name)) (open_file-append ms ns name)
    ∙ first_of_assoc (find_node d name) (open_file ms name) (open_file ns name)

-- A search among files without the name finds none.
not_first :
    {name : List ℕ} {n : Node} {ns : List Node} → FirstNamed name n ns → NoneNamed name ns → ⊥
not_first (here e) absent = absent.0 e
not_first (there ne f) absent = not_first f absent.1

none_found :
    {name : List ℕ} {ns : List Node} {r : Option Node}
    → Search name ns r
    → NoneNamed name ns
    → r ≡ none
none_found (missing a) absent = refl
none_found (found f) absent = absurd (not_first f absent)

-- A device behind mounts without the name answers for it.
pub open_file_last :
    (mounts : Mounts) (d : Device) (name : List ℕ) (n : Node)
    → IsName name
    → AllNamed mounts
    → NoneNamed name (all_files mounts)
    → find_in d.files name ≡ some n
    → open_file (mounts ++ d ∷ []) name ≡ some n
unfolding open_file find_node
open_file_last mounts d name n h all absent hit =
    rw
      (
        open_file-append mounts (d ∷ []) name,
        none_found (open_file-Search mounts name h all) absent,
        hit,
      )
      refl
