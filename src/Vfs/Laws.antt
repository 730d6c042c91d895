-- ===== src/Vfs/Laws.antt =====
-- Names are compared exactly, and a lookup finds the first file with the name.
use fantom_os.Base.{
  ℕ, ◌<◌, ◌≡◌, ◌≢◌, ◌↔◌, inl, inr, refl, ap₂, subst, sym, Option, none, some, List, [], ◌∷◌, ◌++◌,
  arith, ◌==◌, Bool-cases,
}
use fantom_os.Vfs.{
  Node, Mounts, name_cmp, find_in, find_node, open_file, first_of, size_of, get_file_size,
}

-- The bytes of a C string: none is 0.
abbrev pub IsName : List ℕ → Type 0
IsName [] = Unit {0}
IsName (x ∷ xs) = (0 < x) × (x < 256) × IsName xs

name_cmp_self : (xs : List ℕ) → name_cmp xs xs ≡ 0
unfolding name_cmp
name_cmp_self [] = refl
name_cmp_self (x ∷ xs) = ground (arith, name_cmp_self xs)

eq_of_name_cmp : (xs ys : List ℕ) → IsName xs → IsName ys → name_cmp xs ys ≡ 0 → xs ≡ ys
unfolding name_cmp
eq_of_name_cmp [] [] hx hy e = refl
eq_of_name_cmp [] (y ∷ ys) hx hy e = absurd (omega arith)
eq_of_name_cmp (x ∷ xs) [] hx hy e = absurd (omega arith)
eq_of_name_cmp (x ∷ xs) (y ∷ ys) hx hy e = elim (Bool-cases (x == y)) [
  | inl same ↦ ap₂ ◌∷◌ (ground arith) (eq_of_name_cmp xs ys hx.2 hy.2 (ground arith))
  | inr differ ↦ absurd (ground arith)
]

-- The comparison of two names without a NUL inside returns 0 exactly when they are equal.
pub name_cmp_iff : (xs ys : List ℕ) → IsName xs → IsName ys → (name_cmp xs ys ≡ 0) ↔ (xs ≡ ys)
name_cmp_iff xs ys hx hy =
    (eq_of_name_cmp xs ys hx hy, λ e. subst (λ zs. name_cmp xs zs ≡ 0) e (name_cmp_self xs))

-- every node's name is one
abbrev pub AllNames : List Node → Type 0
AllNames [] = Unit {0}
AllNames (n ∷ ns) = IsName n.filename × AllNames ns

abbrev pub AllNamed : Mounts → Type 0
AllNamed [] = Unit {0}
AllNamed (d ∷ ds) = AllNames d.files × AllNamed ds

-- all files in the order of the search: device by device
abbrev pub all_files : Mounts → List Node
all_files [] = []
all_files (d ∷ ds) = d.files ++ all_files ds

-- `n` is the first node with the name in a list.
pub data FirstNamed (name : List ℕ) (n : Node) : List Node → Type 0 where
  here : {ns : List Node} → n.filename ≡ name → FirstNamed name n (n ∷ ns)
  there :
      {m : Node} {ns : List Node}
      → m.filename ≢ name
      → FirstNamed name n ns
      → FirstNamed name n (m ∷ ns)

abbrev pub NoneNamed : List ℕ → List Node → Type 0
NoneNamed name [] = Unit {0}
NoneNamed name (n ∷ ns) = (n.filename ≢ name) × NoneNamed name ns

-- what a search has found
pub data Search (name : List ℕ) (ns : List Node) : Option Node → Type 0 where
  found : {n : Node} → FirstNamed name n ns → Search name ns (some n)
  missing : NoneNamed name ns → Search name ns none

skip :
    (name : List ℕ) (m : Node) (ns : List Node) (r : Option Node)
    → m.filename ≢ name
    → Search name ns r
    → Search name (m ∷ ns) r
skip name m ns r ne (found f) = found (there ne f)
skip name m ns r ne (missing absent) = missing (ne, absent)

find_in-Search :
    (name : List ℕ) (ns : List Node) → IsName name → AllNames ns → Search name ns (find_in ns name)
unfolding find_in
find_in-Search name [] h all = missing tt
find_in-Search name (n ∷ ns) h all = elim (Bool-cases (name_cmp name n.filename == 0)) [
  | inl hit ↦
      let same = (name_cmp_iff name n.filename h all.0).0 (ground arith) in
      rw hit (found (here (sym same)))
  | inr miss ↦
      let differ : n.filename ≢ name =
        λ e. let z = (name_cmp_iff name n.filename h all.0).1 (sym e) in ground arith in
      rw miss (skip name n ns _ differ (find_in-Search name ns h all.1))
]

Search-append :
    (name : List ℕ) (ns ms : List Node) (r s : Option Node)
    → Search name ns r
    → Search name ms s
    → Search name (ns ++ ms) (first_of r s)
Search-append name [] ms r s (missing absent) t = t
Search-append name [] ms r s (found f) t = elim f [ ]
Search-append name (n ∷ ns) ms r s (found (here e)) t = found (here e)
Search-append name (n ∷ ns) ms r s (found (there ne f)) t =
    skip name n (ns ++ ms) _ ne (Search-append name ns ms _ s (found f) t)
Search-append name (n ∷ ns) ms r s (missing absent) t =
    skip name n (ns ++ ms) _ absent.0 (Search-append name ns ms none s (missing absent.1) t)

-- For names without a NUL inside, opening a file returns the first file with the name, device by
-- device in the order of mounting, and NULL exactly when no device has one.
pub open_file-Search :
    (mounts : Mounts) (name : List ℕ)
    → IsName name
    → AllNamed mounts
    → Search name (all_files mounts) (open_file mounts name)
unfolding open_file find_node
open_file-Search [] name h all = missing tt
open_file-Search (d ∷ ds) name h all =
    Search-append name d.files (all_files ds) _ _ (find_in-Search name d.files h all.0)
      (open_file-Search ds name h all.1)

-- The size reported for a name is, on 32 bits, one more than the size of the file that opening
-- the name finds, and 0 without one.
pub get_file_size-open_file :
    (mounts : Mounts) (name : List ℕ)
    → get_file_size mounts name ≡ size_of (open_file mounts name) 0
unfolding get_file_size open_file
get_file_size-open_file [] name = refl
get_file_size-open_file (d ∷ ds) name = ground (arith, get_file_size-open_file ds name)
