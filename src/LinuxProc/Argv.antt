-- ===== src/LinuxProc/Argv.antt =====
-- model/proc/linuxproc.cpp: the array that the writes of buildChildArgv leave.
use simple_task_queue.Common.{
  suc, ◌+◌, ◌≡◌, refl, sym, ap, ◌∙◌, Option, none, some, List, [], ◌∷◌, ◌++◌, Str, length, map,
  arith, length-append, append_assoc,
}
use simple_task_queue.Task.{Task}
use simple_task_queue.LinuxProc.{set_arg, fill_args, new_argv, build_child_argv}

-- A write behind a part of known length.
set_arg-append :
    (front back : List (Option Str)) (old arg : Option Str)
    → set_arg (length front) arg (front ++ old ∷ back) ≡ front ++ arg ∷ back
unfolding set_arg
set_arg-append [] back old arg = refl
set_arg-append (x ∷ front) back old arg = ap (◌∷◌ x) (set_arg-append front back old arg)

fill_args-append :
    (front : List (Option Str)) (args : List Str)
    → fill_args (length front) args (front ++ new_argv (length args + 1))
      ≡ front ++ (map some args ++ none ∷ [])
unfolding fill_args
fill_args-append front [] = refl
fill_args-append front (arg ∷ args) =
    let rest = new_argv (length args + 1) in
    let more : length (arg ∷ args) + 1 ≡ suc (length args + 1) = omega arith in
    let size : length front + 1 ≡ length (front ++ some arg ∷ []) =
      omega (arith, length-append front (some arg ∷ [])) in
    ap (λ n. fill_args (length front) (arg ∷ args) (front ++ new_argv n)) more
    ∙ ap (fill_args (length front + 1) args)
        (set_arg-append front rest none (some arg) ∙ sym (append_assoc front (some arg ∷ []) rest))
    ∙ ap (λ n. fill_args n args ((front ++ some arg ∷ []) ++ rest)) size
    ∙ fill_args-append (front ++ some arg ∷ []) args
    ∙ append_assoc front (some arg ∷ []) (map some args ++ none ∷ [])

length-map : (args : List Str) → length (map some args) ≡ length args
length-map [] = refl
length-map (arg ∷ args) = ap suc (length-map args)

-- The program's name comes first, the arguments follow in their order, and one null pointer ends the
-- array, which has no other place.
pub build_child_argv_lem :
    (task : Task) → build_child_argv task ≡ some task.exec_name ∷ (map some task.args ++ none ∷ [])
unfolding build_child_argv set_arg
build_child_argv_lem task =
    let size : length task.args + 2 ≡ suc (length task.args + 1) = omega arith in
    let name = some task.exec_name in
    let filled = fill_args-append (name ∷ []) task.args in
    let front : List (Option Str) = name ∷ map some task.args in
    let whole : length task.args + 1 ≡ length front = omega (arith, length-map task.args) in
    ap
      (λ n.
        set_arg (length task.args + 1) none (fill_args 1 task.args (set_arg 0 name (new_argv n))))
      size
    ∙ ap (set_arg (length task.args + 1) none) filled
    ∙ ap (λ n. set_arg n none (front ++ none ∷ [])) whole
    ∙ set_arg-append front [] none none
