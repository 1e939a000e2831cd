-- ===== src/Args/Examples.antt =====
-- Argument lists on which the lemmas of RoundTrip are tried.
use simple_task_queue.Common.{◌≡◌, ◌≢◌, ◌↔◌, refl, suc, some, List, [], ◌∷◌, Str, codes, length}
use simple_task_queue.Args.{split_string, concat_string, split_loop}
use simple_task_queue.Args.RoundTrip.{
  IsRepresentable, split-concat_iff, concat-split, split_loop-split_string,
}

abbrev two_args : List Str
two_args = codes "-o" ∷ codes "a,b" ∷ []

abbrev split_args : List Str
split_args = codes "a__,__b" ∷ []

two_args_text : concat_string two_args ≡ codes "-o__,__a,b"
unfolding concat_string
two_args_text = refl

-- An argument that holds the delimiter is read back as two.
split_args_text : split_string (concat_string split_args) ≡ codes "a" ∷ codes "b" ∷ []
unfolding split_string concat_string
split_args_text = refl

-- No arguments are read back as one empty argument.
no_args_text : split_string (concat_string []) ≡ [] ∷ []
unfolding split_string concat_string
no_args_text = refl

split-concat_iff_example :
    (split_string (concat_string two_args) ≡ two_args) ↔ IsRepresentable two_args
split-concat_iff_example = split-concat_iff two_args

concat-split_example :
    (concat_string (split_string (codes "a__,__b")) ≡ codes "a__,__b")
    × (split_string (codes "a__,__b") ≢ [])
concat-split_example = concat-split (codes "a__,__b")

split_loop-split_string_example :
    split_loop (suc (length (codes "a__,__b"))) (codes "a__,__b") []
    ≡ some (split_string (codes "a__,__b"))
split_loop-split_string_example = split_loop-split_string (codes "a__,__b")
