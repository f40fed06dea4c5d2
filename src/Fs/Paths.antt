-- ===== src/Fs/Paths.antt =====
-- kernel/src/fs.c: paths and directories. A C string is the list of its bytes without the final 0.
pub mod Elements
use tiny_os_qemu.Base.{
  ℕ, zero, suc, ◌+◌, ◌-◌, ◌*◌, ◌/◌, ◌%◌, ◌^◌, Bool, true, false, not, Option, none, some, List, [],
  ◌∷◌, ◌++◌, Bytes, paste, update, ltb, leb, ◌==◌, if◌then◌else◌, ◌&&◌, ◌||◌,
}
use tiny_os_qemu.Base.Exec.{Exec, pure, ◌>>=◌, ◌>>◌, get, modify, abort, assert, when}
use tiny_os_qemu.Proc.State.{minus_one}
use tiny_os_qemu.Fs.State.{
  Fs, Inode, Dinode, word, of_word, set_inode, set_dinode, type_none, type_dir, type_dev,
}
use tiny_os_qemu.Fs.Blocks.{dialloc}
use tiny_os_qemu.Fs.Inodes.{iget, iread, iwrite, idup, iclose, iupdate, itype, size_of}

abbrev pub slash : ℕ
slash = 47

abbrev pub dot : ℕ
dot = 46

abbrev pub max_name : ℕ
max_name = 27

-- `sizeof(dirent_t)`: the inode, then the name.
abbrev pub dirent_size : ℕ
dirent_size = 32

unfoldable pub skip_slashes : List ℕ → List ℕ
skip_slashes [] = []
skip_slashes (c ∷ s) = let rest = skip_slashes s in if c == slash then rest else c ∷ s

-- The bytes before the next slash, and those from it on.
unfoldable pub span_name : List ℕ → List ℕ × List ℕ
span_name [] = ([], [])
span_name (c ∷ s) = let (a, b) = span_name s in if c == slash then ([], c ∷ s) else (c ∷ a, b)

unfoldable pub take : ℕ → List ℕ → List ℕ
take zero s = []
take (suc n) [] = []
take (suc n) (c ∷ s) = c ∷ take n s

abbrev pub cut : List ℕ → List ℕ × List ℕ
cut s = let (a, b) = span_name s in (take max_name a, skip_slashes b)

-- The element that `skipelem` copies to `name`, and the path behind it.
unfoldable pub skipelem : List ℕ → Option (List ℕ × List ℕ)
skipelem path = elim (skip_slashes path) [ [] ↦ none | c ∷ s ↦ some (cut (c ∷ s)) ]

-- The string in `b` from `o` on, which ends after `n` bytes at the latest.
unfoldable pub string_at : ℕ → Bytes → ℕ → List ℕ
string_at zero b o = []
string_at (suc n) b o = let later = string_at n b (suc o) in if b o == 0 then [] else b o ∷ later

-- `strcmp(s, t) == 0`
unfoldable pub same_string : List ℕ → List ℕ → Bool
same_string [] [] = true
same_string [] (d ∷ t) = false
same_string (c ∷ s) [] = false
same_string (c ∷ s) (d ∷ t) = let rest = same_string s t in c == d && rest

abbrev pub byte_at : List ℕ → ℕ → ℕ
byte_at [] i = 0
byte_at (c ∷ s) zero = c
byte_at (c ∷ s) (suc i) = byte_at s i

abbrev pub count : List ℕ → ℕ
count [] = 0
count (c ∷ s) = suc (count s)

-- `dirent.inode = no; strcpy(dirent.name, name);`, where the bytes behind the name stay.
unfoldable pub put_dirent : ℕ → List ℕ → Bytes → Bytes
put_dirent nr name b = paste (paste b 0 4 (of_word nr)) 4 (suc (count name)) (byte_at name)

-- `junk` is what stands in a `dirent_t` on the stack before the code writes it.
unfoldable pub idirinit : Bytes → ℕ → ℕ → Exec Fs (Unit {0})
idirinit junk i parent = do
  s ← get
  assert (itype i s == type_dir)
  assert (itype parent s == type_dir)
  assert (size_of i s == 0)
  _ ← iwrite i 0 (put_dirent (s.inodes i).no (dot ∷ []) junk) dirent_size
  _ ←
      iwrite i dirent_size
        (put_dirent (s.inodes parent).no (dot ∷ dot ∷ [])
          (put_dirent (s.inodes i).no (dot ∷ []) junk))
        dirent_size
  pure tt

-- What the loop of `ilookup` comes to: the entry's inode number and its offset; or the offset for
-- a new entry and the bytes of the last one.
pub data Found : Type 0 where
  at : (nr off : ℕ) → Found
  nowhere : (empty : ℕ) (dirent : Bytes) → Found

abbrev pub first_empty : ℕ → ℕ → ℕ → ℕ
first_empty size empty i = if empty == size then i else empty

-- The loop of `ilookup` from offset `i` on; the offset is a uint32_t and wraps around. A round that
-- ends after `size` rounds or never: it takes 32 bytes.
unfoldable pub find_dirent : ℕ → ℕ → List ℕ → ℕ → ℕ → ℕ → Bytes → Exec Fs Found
find_dirent zero parent name size i empty b =
    if ltb i size then abort else pure (Found.nowhere empty b)
find_dirent (suc n) parent name size i empty b = elim (ltb i size) [
  | false ↦ pure (Found.nowhere empty b)
  | true ↦ iread parent i b dirent_size >>= λ (_, e). elim (word e 0 == 0) [
    | true ↦
        find_dirent n parent name size ((i + dirent_size) % 2 ^ 32) (first_empty size empty i) e
    | false ↦ elim (same_string (string_at (suc max_name) e 4) name) [
      | true ↦ pure (Found.at (word e 0) i)
      | false ↦ find_dirent n parent name size ((i + dirent_size) % 2 ^ 32) empty e
    ]
  ]
]

-- A new entry at offset `empty` of the directory.
unfoldable pub icreate : Bytes → ℕ → List ℕ → ℕ → ℕ → Bytes → Exec Fs (Option (ℕ × ℕ))
icreate junk parent name kind empty b = do
  nr ← dialloc kind
  _ ← iwrite parent empty (put_dirent nr name b) dirent_size
  i ← iget nr
  when (kind == type_dir) (idirinit junk i parent)
  pure (some (i, empty))

-- With the inode also `*off`.
unfoldable pub ilookup : Bytes → ℕ → List ℕ → ℕ → Exec Fs (Option (ℕ × ℕ))
ilookup junk parent name kind = do
  s ← get
  assert (itype parent s == type_dir)
  found ← find_dirent (size_of parent s) parent name (size_of parent s) 0 (size_of parent s) junk
  elim found [
    | Found.at nr off ↦ (do i ← iget nr; pure (some (i, off)))
    | Found.nowhere empty b ↦
        if kind == type_none then pure none else icreate junk parent name kind empty b
  ]

-- The loop of `iopen_parent`: each round takes a byte of the path at least. The result has the
-- last element as well.
unfoldable pub open_parents : ℕ → Bytes → ℕ → List ℕ → Exec Fs (Option (ℕ × List ℕ))
open_parents zero junk ip path = abort
open_parents (suc n) junk ip path = elim (skipelem path) [
  | none ↦ iclose ip >> pure none
  | some (name, rest) ↦ get >>= λ s. elim (itype ip s == type_dir) [
    | false ↦ iclose ip >> pure none
    | true ↦ elim rest [
      | [] ↦ pure (some (ip, name))
      | c ∷ r ↦ ilookup junk ip name type_none >>= λ next. elim next [
        | none ↦ iclose ip >> pure none
        | some (i, _) ↦ iclose ip >> open_parents n junk i (c ∷ r)
      ]
    ]
  ]
]

abbrev pub is_absolute : List ℕ → Bool
is_absolute [] = false
is_absolute (c ∷ s) = c == slash

-- `proc_curr()->cwd`, which `idup` asserts not to be NULL.
unfoldable pub start_at : Option ℕ → List ℕ → Exec Fs ℕ
start_at cwd path s =
    if is_absolute path then iget s.sb.root s else elim cwd [ none ↦ none | some c ↦ idup c s ]

unfoldable pub iopen_parent : Bytes → Option ℕ → List ℕ → Exec Fs (Option (ℕ × List ℕ))
iopen_parent junk cwd path =
    start_at cwd path >>= λ ip. open_parents (suc (count path)) junk ip path

unfoldable pub open_last : Bytes → ℕ → ℕ → List ℕ → Exec Fs (Option ℕ)
open_last junk kind parent name = do
  found ← ilookup junk parent name kind
  iclose parent
  pure (elim found [ none ↦ none | some (i, _) ↦ some i ])

unfoldable pub iopen : Bytes → Option ℕ → List ℕ → ℕ → Exec Fs (Option ℕ)
iopen junk cwd path kind s = elim (skipelem path) [
  | none ↦ if is_absolute path then (do i ← iget s.sb.root; pure (some i)) s else some (none, s)
  | some _ ↦
      (iopen_parent junk cwd path >>= λ p. elim p [
        | none ↦ pure none
        | some (parent, name) ↦ open_last junk kind parent name
      ])
        s
]

unfoldable pub iadddev : Bytes → Option ℕ → List ℕ → ℕ → Exec Fs (Unit {0})
iadddev junk cwd name dev = iopen junk cwd name type_dev >>= λ p. elim p [
  | none ↦ abort
  | some i ↦ do
    modify (λ s. set_dinode i (record ((s.inodes i).dinode) { device = dev }) s)
    iupdate i
    iclose i
]

-- The loop of `idirempty`.
unfoldable pub all_invalid : ℕ → ℕ → ℕ → Bytes → Exec Fs Bool
all_invalid zero d i b s = if ltb i (size_of d s) then none else some (true, s)
all_invalid (suc n) d i b s = elim (ltb i (size_of d s)) [
  | false ↦ some (true, s)
  | true ↦
      (iread d i b dirent_size >>= λ (_, e). elim (word e 0 == 0) [
        | true ↦ all_invalid n d ((i + dirent_size) % 2 ^ 32) e
        | false ↦ pure false
      ])
        s
]

unfoldable pub idirempty : Bytes → ℕ → Exec Fs Bool
idirempty junk d = do
  s ← get
  assert (itype d s == type_dir)
  all_invalid (size_of d s) d (2 * dirent_size) junk

-- `itype(inode) == TYPE_DIR && !idirempty(inode)`
unfoldable pub is_busy : Bytes → ℕ → Exec Fs Bool
is_busy junk i s =
    if itype i s == type_dir then (do e ← idirempty junk i; pure (not e)) s else some (false, s)

unfoldable pub unlink : ℕ → ℕ → ℕ → Exec Fs ℕ
unlink parent i off = do
  modify (λ s. set_inode i (record (s.inodes i) { del = 1 }) s)
  _ ← iwrite parent off (λ _. 0) dirent_size
  iclose i
  iclose parent
  pure 0

unfoldable pub remove_in : Bytes → ℕ → List ℕ → Exec Fs ℕ
remove_in junk parent name =
    if same_string name (dot ∷ []) || same_string name (dot ∷ dot ∷ [])
    then iclose parent >> pure minus_one
    else ilookup junk parent name type_none >>= λ found. elim found [
      | none ↦ iclose parent >> pure minus_one
      | some (i, off) ↦ is_busy junk i >>= λ busy. elim busy [
        | true ↦ iclose i >> (iclose parent >> pure minus_one)
        | false ↦ unlink parent i off
      ]
    ]

unfoldable pub iremove : Bytes → Option ℕ → List ℕ → Exec Fs ℕ
iremove junk cwd path = iopen_parent junk cwd path >>= λ p. elim p [
  | none ↦ pure minus_one
  | some (parent, name) ↦ remove_in junk parent name
]
