-- ===== src/File.antt =====
-- kernel/src/file.c and the table of kernel/src/dev.c: open files on the file system.
pub mod Table
pub mod Tests
use tiny_os_qemu.Base.{
  ℕ, zero, suc, ◌+◌, ◌-◌, ◌*◌, ◌/◌, ◌%◌, ◌^◌, Bool, true, false, not, Option, none, some, List,
  Bytes, update, ltb, ◌==◌, if◌then◌else◌, ◌&&◌, ◌||◌,
}
use tiny_os_qemu.Base.Exec.{Exec, pure, ◌>>=◌, ◌>>◌, get, modify, when}
use tiny_os_qemu.Proc.State.{inc, dec, minus_one}
use tiny_os_qemu.Fs.State.{Fs, type_none, type_dir, type_dev}
use tiny_os_qemu.Fs.Inodes.{iread, iwrite, itrunc, iclose, itype, idevid, size_of}
use tiny_os_qemu.Fs.Paths.{iopen}

abbrev pub total_file : ℕ
total_file = 128

abbrev pub type_file : ℕ
type_file = 1

abbrev pub dev_num : ℕ
dev_num = 2

-- `inode` is an entry of the table of active inodes, `dev_op` one of `dev_table`.
pub record File : Type 0 where
  pub type_of : ℕ
  pub ref : ℕ
  pub readable : Bool
  pub writable : Bool
  pub inode : ℕ
  pub offset : ℕ
  pub dev_op : Option ℕ

pub record Files : Type 0 where
  pub fs : Fs
  pub files : ℕ → File

-- The functions in `dev_table`, by the index there.
pub record Devices : Type 0 where
  pub read : ℕ → Bytes → ℕ → Exec Files (ℕ × Bytes)
  pub write : ℕ → Bytes → ℕ → Exec Files ℕ

-- A call of fs.c.
abbrev pub in_fs : {A : Type 0} → Exec Fs A → Exec Files A
in_fs m s = elim (m s.fs) [ none ↦ none | some (a, t) ↦ some (a, record s { fs = t }) ]

abbrev pub set_file : ℕ → File → Files → Files
set_file f x s = record s { files = update s.files f x }

-- The first entry from `i` on without a reference, with `n` entries left.
unfoldable pub find_file : ℕ → ℕ → (ℕ → File) → Option ℕ
find_file zero i fs = none
find_file (suc n) i fs =
    let later = find_file n (suc i) fs in if (fs i).ref == 0 then some i else later

unfoldable pub falloc : Exec Files (Option ℕ)
falloc s = elim (find_file total_file 0 s.files) [
  | none ↦ some (none, s)
  | some f ↦ some (some f, set_file f (record (s.files f) { ref = 1; type_of = type_none }) s)
]

-- Bit `k` of the mode is set.
abbrev pub has : ℕ → ℕ → Bool
has mode k = not (mode / 2 ^ k % 2 == 0)

abbrev pub o_wronly : ℕ
o_wronly = 0

abbrev pub o_rdwr : ℕ
o_rdwr = 1

abbrev pub o_create : ℕ
o_create = 9

abbrev pub o_trunc : ℕ
o_trunc = 10

abbrev pub o_dir : ℕ
o_dir = 11

abbrev pub open_type : ℕ → ℕ
open_type mode =
    if has mode o_create then (if has mode o_dir then type_dir else type_file) else type_none

abbrev pub refuses : ℕ → ℕ → Bool
refuses kind mode =
    not (kind == type_dir) && has mode o_dir
    || kind == type_dir && (has mode o_wronly || has mode o_rdwr || has mode o_trunc)

abbrev pub dev_get : ℕ → Option ℕ
dev_get id = if ltb id dev_num then some id else none

unfoldable pub fclose : ℕ → Exec Files (Unit {0})
fclose f = do
  modify (λ s. set_file f (record (s.files f) { ref = dec (s.files f).ref }) s)
  s ← get
  when ((s.files f).ref == 0 && (s.files f).type_of == type_file) (in_fs (iclose (s.files f).inode))

-- The end of `fopen`.
unfoldable pub set_access : ℕ → ℕ → Exec Files (Option ℕ)
set_access f mode = do
  modify (λ s.
      set_file f
        (record (s.files f) {
          readable = not (has mode o_wronly);
          writable = has mode o_wronly || has mode o_rdwr;
        })
        s)
  pure (some f)

unfoldable pub open_file : ℕ → ℕ → ℕ → Exec Files (Option ℕ)
open_file f i mode = do
  s ← get
  when (itype i s.fs == type_file && has mode o_trunc) (in_fs (itrunc i))
  modify (λ t. set_file f (record (t.files f) { type_of = type_file; inode = i; offset = 0 }) t)
  set_access f mode

unfoldable pub open_dev : ℕ → ℕ → ℕ → Exec Files (Option ℕ)
open_dev f i mode = do
  modify (λ s.
      set_file f (record (s.files f) { type_of = type_dev; dev_op = dev_get (idevid i s.fs) }) s)
  in_fs (iclose i)
  set_access f mode

unfoldable pub open_inode : ℕ → ℕ → ℕ → Exec Files (Option ℕ)
open_inode f i mode s =
    if itype i s.fs == type_file || itype i s.fs == type_dir
    then (if refuses (itype i s.fs) mode
        then (do fclose f; in_fs (iclose i); pure none) s
        else open_file f i mode s)
    else if itype i s.fs == type_dev
    then open_dev f i mode s
    else none

unfoldable pub fopen : Bytes → Option ℕ → List ℕ → ℕ → Exec Files (Option ℕ)
fopen junk cwd path mode = falloc >>= λ fp. elim fp [
  | none ↦ pure none
  | some f ↦ in_fs (iopen junk cwd path (open_type mode)) >>= λ ip. elim ip [
    | none ↦ fclose f >> pure none
    | some i ↦ open_inode f i mode
  ]
]

abbrev pub advance : ℕ → ℕ → Files → Files
advance f n s = set_file f (record (s.files f) { offset = ((s.files f).offset + n) % 2 ^ 32 }) s

-- A result of `iread` or `iwrite` that is not negative moves the offset.
unfoldable pub moved : ℕ → ℕ → Exec Files ℕ
moved f n s = if ltb n (2 ^ 31) then some (n, advance f n s) else some (minus_one, s)

-- A `dev_op` that is NULL faults.
unfoldable pub fread : Devices → ℕ → Bytes → ℕ → Exec Files (ℕ × Bytes)
fread v f buf size s =
    let x = s.files f in
    if not x.readable
    then some ((minus_one, buf), s)
    else if x.type_of == type_file
    then (do got ← in_fs (iread x.inode x.offset buf size); n ← moved f got.0; pure (n, got.1)) s
    else if x.type_of == type_dev
    then elim x.dev_op [ none ↦ none | some d ↦ v.read d buf size s ]
    else some ((minus_one, buf), s)

unfoldable pub fwrite : Devices → ℕ → Bytes → ℕ → Exec Files ℕ
fwrite v f buf size s =
    let x = s.files f in
    if not x.writable
    then some (minus_one, s)
    else if x.type_of == type_file
    then (do n ← in_fs (iwrite x.inode x.offset buf size); moved f n) s
    else if x.type_of == type_dev
    then elim x.dev_op [ none ↦ none | some d ↦ v.write d buf size s ]
    else some (minus_one, s)

-- Where `fseek` goes to: SEEK_SET, SEEK_CUR and SEEK_END are 0, 1 and 2.
abbrev pub target : ℕ → ℕ → ℕ → ℕ → Option ℕ
target whence offset size off =
    if whence == 0
    then some off
    else if whence == 1
    then some ((offset + off) % 2 ^ 32)
    else if whence == 2
    then some ((size + off) % 2 ^ 32)
    else none

unfoldable pub fseek : ℕ → ℕ → ℕ → Exec Files ℕ
fseek f off whence s =
    let x = s.files f in
    if x.type_of == type_file
    then elim (target whence x.offset (size_of x.inode s.fs) off) [
      | none ↦ none
      | some o ↦ some (o, set_file f (record x { offset = o }) s)
    ]
    else some (minus_one, s)

unfoldable pub fdup : ℕ → Exec Files ℕ
fdup f s = some (f, set_file f (record (s.files f) { ref = inc (s.files f).ref }) s)
