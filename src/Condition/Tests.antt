-- ===== src/Condition/Tests.antt =====
-- Runs of the threads of lab/lab8/condition_sem.c.
use tiny_os_qemu.Base.{ℕ, List, ◌++◌, ◌==◌, if◌then◌else◌, ◌≡◌, refl, arith, replicate}
use tiny_os_qemu.Condition.{Role, run, started, step, turn, my_cv_wait, my_cv_broadcast}
use tiny_os_qemu.Condition.Safe.{IsSound, run-IsSound}
use tiny_os_qemu.Condition.Broadcast.{IsPaired, run-IsPaired}

-- Thread 0 is a producer, the others are consumers.
abbrev roles : ℕ → Role
roles i = if i == 0 then Role.producer else Role.consumer

-- A consumer goes to sleep, and the producer puts an item and wakes it.
abbrev steps : List ℕ
steps = replicate 7 1 ++ replicate 9 0 ++ replicate 2 1 ++ replicate 5 0

-- The item is there, and both threads are about to take `mutex`.
one_item : (run 2 roles steps started).shared.opened ≡ 1
unfolding run turn step my_cv_wait my_cv_broadcast
one_item = refl

run-IsSound_example : IsSound 2 roles (run 2 roles steps started)
run-IsSound_example = run-IsSound 2 roles steps

run-IsPaired_example : IsPaired 2 (run 2 roles steps started)
run-IsPaired_example = run-IsPaired 2 2 roles steps (omega arith)
