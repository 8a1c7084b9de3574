-- ===== src/Exec/Loop/Resumes.antt =====
-- Where exec_context of slake/rt/exec.cc goes on after a call.
use slake.Prelude.{
  ℕ, suc, ◌≡◌, ◌==◌, get_elem?, refl, sym, ap, ◌∙◌, Bool, false, Option, some, List, ◌∷◌,
  if◌then◌else◌, arith,
}
use slake.Frames.Major.{FnOverloadingObject, FnOverloadingKind, Context}
use slake.Exec.Machine.{Machine, ContextChangeType, Env, RegularFn, Result, frame_at}
use slake.Exec.Opcode.{Instruction, Opcode}
use slake.Exec.Calls.{callee, change_of}
use slake.Exec.Calls.Enters.{Entered, exec_call-Entered}
use slake.Exec.Ins.{dispatch, exec_ins}
use slake.Exec.Ins.Fetches.{stepped, exec_ins-dispatch}
use slake.Exec.Loop.{
  LoopEnv, Mode, next, killed, at_function, at_major_frame, at_instruction, collect, keep_cur_ins,
  turn, after_ins, after_change, function_turn, start_code, then_turn, run,
}

module _ (env : Env) (loop : LoopEnv) (fuel depth : ℕ) where
  call_turn :
      (ol : RegularFn) (off : ℕ) (m called : Machine)
      → loop.is_dead m ≡ false
      → exec_ins env fuel ol off (collect env loop fuel depth m) ≡ (Result.ok tt, called)
      → called.context_changes ≡ ContextChangeType.fn_changed
      → turn env loop fuel depth (at_instruction ol off) m
        ≡ next at_function (keep_cur_ins env loop fuel depth called)
  unfolding turn after_ins after_change
  call_turn ol off m called alive e c =
      ap
        (λ (b : Bool).
          if b
          then killed m
          else after_ins env loop fuel depth ol off
              (exec_ins env fuel ol off (collect env loop fuel depth m)))
        alive
      ∙ (ap (after_ins env loop fuel depth ol off) e
          ∙ ap (λ (k : ContextChangeType). after_change env loop fuel depth ol off k called) c)

  begin_turn :
      (m : Machine) (fn : FnOverloadingObject) (first : Instruction) (rest : List Instruction)
      → (frame_at m.context.off_cur_major_frame m).cur_fn ≡ some fn
      → (loop.code_of fn).instructions ≡ first ∷ rest
      → turn env loop fuel depth at_function m
        ≡ next
            (at_major_frame (loop.code_of fn))
            (record m { cur_ins_ptr = (frame_at m.context.off_cur_major_frame m).cur_ins })
  unfolding turn function_turn
  begin_turn m fn first rest f i =
      ap (λ (o : Option FnOverloadingObject). function_turn env loop fuel depth o m) f
      ∙ ap (λ (is : List Instruction). start_code env loop fuel depth (loop.code_of fn) is m) i

  kept-cur_ins :
      (m : Machine)
      → (frame_at m.context.off_cur_major_frame (keep_cur_ins env loop fuel depth m)).cur_ins
        ≡ m.cur_ins_ptr
  kept-cur_ins m = ground arith

  kept-cur_fn :
      (m : Machine)
      → (frame_at m.context.off_cur_major_frame (keep_cur_ins env loop fuel depth m)).cur_fn
        ≡ (frame_at m.context.off_cur_major_frame m).cur_fn
  kept-cur_fn m = ground arith

  -- The machine behind the collection that may come before an instruction
  abbrev pub fetching : Machine → Machine
  fetching m = collect env loop fuel depth m

  -- The fetched CALL enters the function.
  fetched_call-Entered :
      (ol : RegularFn) (off : ℕ) (x called : Machine) (ins : Instruction) (fn : FnOverloadingObject)
      → get_elem? ol.instructions x.cur_ins_ptr ≡ some ins
      → ins.opcode ≡ Opcode.call
      → callee env ol off ins.reg0 (stepped env fuel ol off x)
        ≡ (Result.ok fn, stepped env fuel ol off x)
      → exec_ins env fuel ol off x ≡ (Result.ok tt, called)
      → (called.context.off_cur_major_frame == off) ≡ false
      → Entered off fn (stepped env fuel ol off x) called
  unfolding dispatch
  fetched_call-Entered ol off x called ins fn fetched code held e apart =
      let dispatched =
        exec_ins-dispatch env fuel ol off ins x fetched
        ∙ ap (λ (o : Opcode). dispatch env fuel ol off o ins (stepped env fuel ol off x)) code in
      exec_call-Entered env ol off fn ins (stepped env fuel ol off x) called held
        (sym dispatched ∙ e) apart

  -- A call of another regular function changes the function.
  change_of-regular :
      (fn g : FnOverloadingObject)
      → (fn.address == g.address) ≡ false
      → fn.overloading_kind ≡ FnOverloadingKind.regular
      → g.overloading_kind ≡ FnOverloadingKind.regular
      → change_of fn (some g) ≡ ContextChangeType.fn_changed
  change_of-regular fn g other f h = simp (other, f, h)

  -- Where the thread is not killed and the next instruction of a regular function is a CALL whose
  -- register holds another regular function, one with instructions, and the call succeeds with a
  -- frame of its own, after a collection that leaves the index and the context, if any: three turns
  -- of the loops come to the called function in the new frame, but at the index behind the CALL
  -- instead of its first instruction, and the calling function's frame keeps the index that it had
  -- before.
  pub run-exec_call :
      (ol : RegularFn) (off : ℕ) (m called : Machine) (ins : Instruction)
      (fn g : FnOverloadingObject) (first : Instruction) (rest : List Instruction)
      → loop.is_dead m ≡ false
      → (fetching m).cur_ins_ptr ≡ m.cur_ins_ptr
      → (fetching m).context ≡ m.context
      → get_elem? ol.instructions m.cur_ins_ptr ≡ some ins
      → ins.opcode ≡ Opcode.call
      → callee env ol off ins.reg0 (stepped env fuel ol off (fetching m))
        ≡ (Result.ok fn, stepped env fuel ol off (fetching m))
      → (frame_at off m).cur_fn ≡ some g
      → (fn.address == g.address) ≡ false
      → fn.overloading_kind ≡ FnOverloadingKind.regular
      → g.overloading_kind ≡ FnOverloadingKind.regular
      → (loop.code_of fn).instructions ≡ first ∷ rest
      → exec_ins env fuel ol off (fetching m) ≡ (Result.ok tt, called)
      → (called.context.off_cur_major_frame == off) ≡ false
      → (begun : Machine) × (run env loop fuel depth 3 (at_instruction ol off) m
          ≡ next (at_instruction (loop.code_of fn) begun.context.off_cur_major_frame) begun)
        × (begun.context.off_cur_major_frame ≡ called.context.off_cur_major_frame)
        × ((frame_at begun.context.off_cur_major_frame begun).cur_fn ≡ some fn)
        × (begun.cur_ins_ptr ≡ suc m.cur_ins_ptr)
        × ((frame_at off begun).cur_ins ≡ (frame_at off m).cur_ins)
  unfolding run then_turn turn
  run-exec_call ol off m called ins fn g first rest alive index context fetched code held mine other
        f h i e apart =
      let x = fetching m in
      let entered =
        fetched_call-Entered ol off x called ins fn (ap (get_elem? ol.instructions) index ∙ fetched)
          code held e apart in
      let changed : called.context_changes ≡ ContextChangeType.fn_changed =
        entered.change
        ∙ (ap (λ (c : Context). change_of fn (c.frames off).cur_fn) context
            ∙ (ap (change_of fn) mine ∙ change_of-regular fn g other f h)) in
      let kept = keep_cur_ins env loop fuel depth called in
      let here = called.context.off_cur_major_frame in
      let again : (off == here) ≡ false = ground (arith, apart) in
      let still : (frame_at off kept).cur_ins ≡ (frame_at off called).cur_ins =
        ground (arith, again) in
      let go = λ (n : ℕ) (k : Mode) (y : Machine). run env loop fuel depth n k y in
      (
        record kept {
          cur_ins_ptr = (frame_at here kept).cur_ins;
          context_changes = ContextChangeType.no_change;
        },
        ap (then_turn env loop fuel depth (go 2)) (call_turn ol off m called alive e changed)
            ∙ ap (then_turn env loop fuel depth (go 1))
                (begin_turn kept fn first rest (kept-cur_fn called ∙ entered.new_fn) i),
        refl,
        kept-cur_fn called ∙ entered.new_fn,
        kept-cur_ins called ∙ (entered.same_index ∙ ap suc index),
        still ∙ (entered.kept_index ∙ ap (λ (c : Context). (c.frames off).cur_ins) context),
      )
