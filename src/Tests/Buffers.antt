-- ===== src/Tests/Buffers.antt =====
-- The theorems on streams, heads, timers and intervals at concrete inputs.
use defold_connclient.Prelude.{◌+◌, ◌*◌, ◌≤◌, ◌≡◌, List, [], ◌∷◌, length, pos, negsuc, arith}
use defold_connclient.Stream.{empty, ensure_writable, readable}
use defold_connclient.Stream.Buffer.{empty-IsValid}
use defold_connclient.Stream.Room.{HasRoom, ensure_writable_lem}
use defold_connclient.Stream.History.{Op, appends, skips, run, spec_run, run-empty}
use defold_connclient.TimeExpire.{TimeExpire}
use defold_connclient.TimeExpire.Spacing.{fired, fired_count}
use defold_connclient.Client.Relink.Sorted.{Holds, add_all, add_all_lem}
use defold_connclient.Tests.{alloc}

abbrev ops : List Op
ops = appends (1 ∷ 2 ∷ 3 ∷ []) ∷ skips (pos 2) ∷ appends (4 ∷ []) ∷ skips (negsuc 0) ∷ []

run-empty_example : readable (run alloc (empty alloc) ops) ≡ spec_run [] ops
run-empty_example =
    (run-empty alloc ops (omega arith, (omega arith, (omega arith, (omega arith, tt))))).1

ensure_writable_lem_example :
    HasRoom (empty alloc) 70000 (ensure_writable alloc (pos 70000) (empty alloc))
ensure_writable_lem_example =
    ensure_writable_lem alloc (empty alloc) 70000 (empty-IsValid alloc) (omega arith)

abbrev timer : TimeExpire
timer = record { last_time = 0; expire_long = 2000 }

fired_count_example : length (fired timer (1000 ∷ 3000 ∷ 4000 ∷ 5001 ∷ [])) * 2001 + 0 ≤ 5001
fired_count_example =
    fired_count timer (1000 ∷ 3000 ∷ 4000 ∷ 5001 ∷ []) 5001 (omega arith) (omega arith)

add_all_lem_example : Holds (pos 300 ∷ pos 100 ∷ []) (add_all [] (pos 300 ∷ pos 100 ∷ []))
add_all_lem_example = add_all_lem (pos 300) (pos 100 ∷ [])
