-- ===== src/Input/Tests.antt =====
-- Lines read from an input in several reads.
use tiny_os_qemu.Base.{◌≡◌, refl, some, none, Option, ◌-◌, ◌^◌, [], ◌∷◌, arith, List}
use tiny_os_qemu.Num.Parse.{strtol, strtoul}
use tiny_os_qemu.Input.{
  Input, getline, remove_space, refill, is_end, getchar, peekchar, gets_loop, gets_end, throw_away,
}
use tiny_os_qemu.Input.Scan.{Item, scanf}
use tiny_os_qemu.Input.Reads.{IsInput, unread}
use tiny_os_qemu.Input.Lines.{Cuts, getline-Cuts}

-- "ab\nc" in two reads.
abbrev two_reads : Input
two_reads = record {
  buf = λ _. 0;
  head = 0;
  tail = 0;
  reads = (97 ∷ []) ∷ (98 ∷ 10 ∷ 99 ∷ []) ∷ [];
}

two_reads_eq : unread two_reads ≡ 97 ∷ 98 ∷ 10 ∷ 99 ∷ []
unfolding tiny_os_qemu.Input.Reads.slice tiny_os_qemu.Input.Reads.joined
two_reads_eq = refl

getline-Cuts_example :
    (t : Input) × (getline 10 two_reads ≡ some (97 ∷ 98 ∷ 10 ∷ [], t))
    × (unread t ≡ 99 ∷ [])
    × IsInput t
getline-Cuts_example =
    getline-Cuts 10 two_reads (97 ∷ 98 ∷ 10 ∷ []) (99 ∷ []) (omega arith) (omega arith)
      (record { head_le = omega arith; full = (λ e. cc, (λ e. cc, tt)) })
      (Cuts.newline (97 ∷ 98 ∷ []) two_reads_eq refl (omega arith) (omega arith))

-- "%d %s" on " -12 ab\n".
abbrev items : Option (List Item × Input) → List Item
items none = []
items (some (is, s)) = is

scanned :
    items (
      scanf 20 (37 ∷ 100 ∷ 32 ∷ 37 ∷ 115 ∷ []) (record {
        buf = λ _. 0;
        head = 0;
        tail = 0;
        reads = (32 ∷ 45 ∷ 49 ∷ []) ∷ (50 ∷ 32 ∷ 97 ∷ 98 ∷ 10 ∷ []) ∷ [];
      }))
    ≡ Item.long (2 ^ 32 - 12) ∷ Item.string (97 ∷ 98 ∷ []) ∷ []
unfolding scanf remove_space refill is_end getchar peekchar gets_loop gets_end throw_away strtol
    strtoul tiny_os_qemu.Num.Parse.skip_spaces tiny_os_qemu.Num.Parse.long_from
    tiny_os_qemu.Num.Parse.long_digits tiny_os_qemu.Num.Parse.scan_digits
scanned = refl
