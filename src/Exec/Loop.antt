-- ===== src/Exec/Loop.antt =====
-- Runtime::exec_context of slake/rt/exec.cc. Its nested loops are a state machine: a mode is the
-- head of a loop, a turn goes to the next one.
pub mod Resumes
use slake.Prelude.{
  ℕ, zero, suc, Bool, true, false, Option, none, some, List, [], ◌∷◌, ◌==◌, ltb, if◌then◌else◌,
}
use slake.Frames.Major.{
  FnOverloadingKind, FnOverloadingObject, MajorFrame, Context, leave_major_frame,
}
use slake.Exec.Machine.{
  Machine, ContextChangeType, Action, Env, RegularFn, Error, Result, frame_at, set_frame_at,
}
use slake.Exec.Opcode.{Instruction}
use slake.Exec.Ins.{exec_ins}

pub data Mode : Type 0 where
  at_context at_function : Mode
  at_major_frame : RegularFn → Mode
  at_instruction : RegularFn → ℕ → Mode

pub data Turn : Type 0 where
  next : Mode → Machine → Turn
  done killed : Machine → Turn
  failed : Error → Machine → Turn
  aborted undefined : Turn

-- What the loop calls: the code of a regular function, the callback of a native one with the
-- guard for its arguments, the status of the thread and the collector.
pub record LoopEnv : Type 0 where
  pub code_of : FnOverloadingObject → RegularFn
  pub callback : FnOverloadingObject → Action (Unit {0})
  pub is_dead : Machine → Bool
  pub gc_is_due : Machine → Bool
  pub gc : Machine → Machine

module _ (env : Env) (loop : LoopEnv) (fuel initial_major_frame_depth : ℕ) where
  -- _leave_major_frame after the callback; the returned value is dropped.
  unfoldable pub after_callback : Result (Unit {0}) × Machine → Turn
  unfolding leave_major_frame
  after_callback (Result.ok _, m) =
      next at_context (record m { context = leave_major_frame m.context })
  after_callback (Result.thrown e, m) = failed e m
  after_callback (Result.terminated, m) = aborted
  after_callback (Result.undefined, m) = undefined

  unfoldable pub by_kind : FnOverloadingObject → FnOverloadingKind → Machine → Turn
  unfolding after_callback
  by_kind fn FnOverloadingKind.regular m = next at_function m
  by_kind fn FnOverloadingKind.native m = after_callback (loop.callback fn m)
  by_kind fn FnOverloadingKind.jit_compiled m = aborted

  unfoldable pub context_turn : Option FnOverloadingObject → Machine → Turn
  unfolding by_kind
  context_turn none m = done m
  context_turn (some fn) m = by_kind fn fn.overloading_kind m

  -- A function without instructions ends the program.
  abbrev pub start_code : RegularFn → List Instruction → Machine → Turn
  start_code ol [] m = aborted
  start_code ol (i ∷ rest) m =
      next (at_major_frame ol)
        (record m { cur_ins_ptr = (frame_at m.context.off_cur_major_frame m).cur_ins })

  unfoldable pub function_turn : Option FnOverloadingObject → Machine → Turn
  function_turn none m = undefined
  function_turn (some fn) m = start_code (loop.code_of fn) (loop.code_of fn).instructions m

  -- The index of the next instruction is kept in the frame that is current then.
  abbrev pub keep_cur_ins : Machine → Machine
  keep_cur_ins m =
      set_frame_at m.context.off_cur_major_frame
        (record (frame_at m.context.off_cur_major_frame m) { cur_ins = m.cur_ins_ptr }) m

  unfoldable pub after_change : RegularFn → ℕ → ContextChangeType → Machine → Turn
  after_change ol off ContextChangeType.no_change m = next (at_instruction ol off) m
  after_change ol off ContextChangeType.major_frame_changed m = next (at_major_frame ol) m
  after_change ol off ContextChangeType.fn_changed m = next at_function (keep_cur_ins m)
  after_change ol off ContextChangeType.fn_kind_changed m = next at_context (keep_cur_ins m)

  unfoldable pub after_ins : RegularFn → ℕ → Result (Unit {0}) × Machine → Turn
  unfolding after_change
  after_ins ol off (Result.ok _, m) = after_change ol off m.context_changes m
  after_ins ol off (Result.thrown e, m) = failed e m
  after_ins ol off (Result.terminated, m) = aborted
  after_ins ol off (Result.undefined, m) = undefined

  abbrev pub collect : Machine → Machine
  collect m = if loop.gc_is_due m then loop.gc m else m

  unfoldable pub turn : Mode → Machine → Turn
  unfolding context_turn function_turn after_ins
  turn at_context m =
      if ltb m.context.num_major_frames initial_major_frame_depth
      then done m
      else context_turn (frame_at m.context.off_cur_major_frame m).cur_fn m
  turn at_function m = function_turn (frame_at m.context.off_cur_major_frame m).cur_fn m
  turn (at_major_frame ol) m =
      next (at_instruction ol m.context.off_cur_major_frame)
        (record m { context_changes = ContextChangeType.no_change })
  turn (at_instruction ol off) m =
      if loop.is_dead m then killed m else after_ins ol off (exec_ins env fuel ol off (collect m))

  unfoldable pub then_turn : (Mode → Machine → Turn) → Turn → Turn
  then_turn go (next mode m) = go mode m
  then_turn go t = t

  -- The loop for a number of turns; `next` is a run that is not over.
  unfoldable pub run : ℕ → Mode → Machine → Turn
  unfolding turn then_turn
  run zero mode m = next mode m
  run (suc n) mode m = then_turn (run n) (turn mode m)

-- exec_context with the depth of the context at its call
unfoldable pub exec_context : Env → LoopEnv → ℕ → ℕ → Machine → Turn
unfolding run
exec_context env loop fuel turns m = run env loop fuel m.context.num_major_frames turns at_context m
