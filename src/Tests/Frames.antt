-- ===== src/Tests/Frames.antt =====
-- A stack frame at concrete inputs.
use xbyak.Prelude.{ℕ, ◌+◌, ◌*◌, ◌≡◌, refl, arith, true, false, [], ◌∷◌}
use xbyak.StackFrame.{use_rbp, use_push2}
use xbyak.StackFrame.Frame.{make_frame, prolog, close, stack_frame, reg_num}
use xbyak.StackFrame.Restore.{Machine, run}
use xbyak.StackFrame.Saves.{close-restores}
use xbyak.StackFrame.Registers.{hands_out, make_frame-hands_out}

-- StackFrame(code, 3, 8 | UseRBP | UsePUSH2, 40)
abbrev arguments : ℕ
arguments = 8 + use_rbp + use_push2

abbrev before : Machine
before = record { regs = λ r. r * 100; stack = 7 ∷ 8 ∷ [] }

abbrev entered : Machine
entered = run (prolog 3 arguments (make_frame 3 arguments 40)) before

abbrev body : Machine
body = record entered { regs = λ r. 0 }

close-restores_example :
    ((run (close false (make_frame 3 arguments 40)) body).stack ≡ before.stack)
    × ((run (close false (make_frame 3 arguments 40)) body).regs 12 ≡ before.regs 12)
unfolding stack_frame
close-restores_example =
    close-restores 3 arguments 40 (make_frame 3 arguments 40)
      (prolog 3 arguments (make_frame 3 arguments 40)) before body 12 refl refl refl

make_frame-hands_out_example : hands_out 4 5 (make_frame 4 (5 + 6 * 32) 64) ≡ true
unfolding reg_num
make_frame-hands_out_example =
    make_frame-hands_out 4 5 6 64 (omega arith) (omega arith) (omega arith) refl
