-- ===== src/Mkfs/Tests.antt =====
-- Images that utils/mkfs.c builds.
use tiny_os_qemu.Base.{◌≡◌, ◌*◌, ◌%◌, some, [], ◌∷◌, Bytes, arith, ap, ◌∙◌}
use tiny_os_qemu.Mkfs.{Image, blank_image, init_disk, add_file, iappend}
use tiny_os_qemu.Mkfs.Append.{Appends}
use tiny_os_qemu.Mkfs.Files.{Added, add_file-Added}
use tiny_os_qemu.Mkfs.Layout.{IsLaid, init_disk-IsLaid}
use tiny_os_qemu.Mkfs.Append.{iappend-Appends, rounds}

abbrev zeros : Bytes
zeros _ = 0

init_disk-IsLaid_example :
    (t : Image) × (init_disk zeros blank_image ≡ some (tt, t))
    × (t.root ≡ 1)
    × (t.next_inode ≡ 2)
    × IsLaid zeros t
init_disk-IsLaid_example = init_disk-IsLaid zeros

-- The image that `init_disk` leaves.
abbrev fresh_image : Image
fresh_image = (init_disk-IsLaid zeros).0

fresh-IsLaid : IsLaid zeros fresh_image
fresh-IsLaid = (init_disk-IsLaid zeros).4

fresh_root : fresh_image.root ≡ 1
fresh_root = (init_disk-IsLaid zeros).2

fresh_next : fresh_image.next_inode ≡ 2
fresh_next = (init_disk-IsLaid zeros).3

root_size : (fresh_image.inodes fresh_image.root).size ≡ 64
root_size = ap (λ k. (fresh_image.inodes k).size) fresh_root ∙ fresh-IsLaid.root_size

new_inode : (fresh_image.inodes fresh_image.next_inode).size ≡ 0
new_inode =
    fresh-IsLaid.other_sizes fresh_image.next_inode (λ e. absurd (omega (arith, fresh_next)))

-- The file "a" with 5000 bytes.
add_file-Added_example :
    (t : Image) × (add_file zeros (97 ∷ []) (λ _. 65) 5000 fresh_image ≡ some (tt, t))
    × Added fresh_image zeros (97 ∷ []) (λ _. 65) 5000 fresh_image.next_inode t
add_file-Added_example =
    add_file-Added fresh-IsLaid.uses fresh_image zeros (97 ∷ []) (λ _. 65) 5000 fresh-IsLaid.image
      (omega (arith, fresh_next)) (omega (arith, fresh_next, fresh_root)) new_inode (omega arith)
      (omega (arith, root_size)) (omega arith) (omega (arith, root_size, fresh-IsLaid.next_hi))

-- 100 bytes behind the root directory's.
iappend-Appends_example :
    Appends fresh_image 1
      (fresh_image.inodes 1).size
      100
      0
      (2 * rounds ((fresh_image.inodes 1).size % 4096) 100)
      zeros
      (iappend 1 zeros 100)
iappend-Appends_example =
    iappend-Appends fresh-IsLaid.uses fresh_image 1 100 zeros fresh-IsLaid.image
      (omega (arith, fresh-IsLaid.root_size))
      (omega (arith, fresh-IsLaid.root_size, fresh-IsLaid.next_hi))
