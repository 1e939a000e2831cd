-- ===== src/Cli/Args/Examples.antt =====
-- Two lines of the terminal.
use simple_task_queue.Common.{ℕ, suc, ◌+◌, ◌≡◌, refl, none, [], ◌∷◌, codes, arith, take, drop}
use simple_task_queue.Args.{find, starts_with}
use simple_task_queue.Cli.Args.{
  init_args, get_args, tokens, token_loop, copied, clean_argv, clean_slots, capacity_after, nulls,
}
use simple_task_queue.Cli.Args.Words.{pieces, kept, tokens-kept}
use simple_task_queue.Cli.Args.Slots.{Takes, get_args-Takes, init_args-IsFit}

-- A space behind a command makes an empty second argument.
exit_and_space : tokens (codes "exit ") ≡ codes "exit" ∷ [] ∷ []
unfolding tokens token_loop find starts_with take drop
exit_and_space = refl

tokens-kept_example : tokens (codes "list  -m 2") ≡ kept (pieces (codes "list  -m 2"))
tokens-kept_example = tokens-kept (codes "list  -m 2")

-- Some growth of a vector.
abbrev doubled : ℕ → ℕ
doubled c = suc (c + c)

get_args-Takes_example :
    Takes
      (codes "a b c d e f g h i j k l m n o p q")
      init_args
      (get_args doubled (codes "a b c d e f g h i j k l m n o p q") init_args)
get_args-Takes_example =
    get_args-Takes doubled (λ c. omega arith) (codes "a b c d e f g h i j k l m n o p q") init_args
      init_args-IsFit

-- A line of seventeen arguments makes cleanArgv leave the array.
seventeen : get_args doubled (codes "a b c d e f g h i j k l m n o p q") init_args ≡ none
unfolding get_args copied clean_argv clean_slots tokens token_loop capacity_after init_args nulls
    find starts_with take drop
seventeen = refl
