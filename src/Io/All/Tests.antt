-- ===== src/Io/All/Tests.antt =====
-- The theorems on the loops of libqrexec/ioall.c at concrete inputs.
use qubes_core_qrexec.Prelude.{◌≡◌, refl, true, List, [], ◌∷◌, ◌++◌, arith, Bytes, codes}
use qubes_core_qrexec.Io.All.{
  Answer, moves, again, read_all, whole, too_many, qubes_read_all_to_malloc, slurp_loop, slurp_step,
  qubes_sendmsg_all,
}
use qubes_core_qrexec.Io.All.Loops.{read_result, read_all-reads}
use qubes_core_qrexec.Io.All.Growth.{slurp_result, read_all_to_malloc-all}
use qubes_core_qrexec.Io.All.Vectors.{SendsAll, sendmsg_all-SendsAll}

-- Two bytes, an interruption, then more.
abbrev answers : List Answer
answers = moves 1 ∷ again ∷ moves 8 ∷ moves 8 ∷ moves 8 ∷ moves 8 ∷ moves 8 ∷ moves 8 ∷ moves 8 ∷ []

read_all-reads_example : read_all answers 6 [] (codes "hello") ≡ read_result 6 (codes "hello")
read_all-reads_example = read_all-reads answers 6 (codes "hello") refl (omega arith)

slurped_run :
    qubes_read_all_to_malloc (λ size. true) answers 2 6 (codes "hello") ≡ whole (codes "hello")
unfolding qubes_read_all_to_malloc slurp_loop slurp_step
slurped_run = refl

too_many_run : qubes_read_all_to_malloc (λ size. true) answers 2 5 (codes "hello") ≡ too_many
unfolding qubes_read_all_to_malloc slurp_loop slurp_step
too_many_run = refl

read_all_to_malloc-all_example :
    qubes_read_all_to_malloc (λ size. true) answers 2 6 (codes "hello")
    ≡ slurp_result 6 (codes "hello")
read_all_to_malloc-all_example =
    read_all_to_malloc-all (λ size. true) answers 2 6 (codes "hello") (λ size h. refl) refl
      (omega arith) (omega arith) (omega arith) (omega arith)

abbrev vectors : List Bytes
vectors = codes "ad" ∷ [] ∷ codes "min" ∷ []

sendmsg_all-SendsAll_example : SendsAll ([] ++ codes "admin") (qubes_sendmsg_all answers vectors [])
sendmsg_all-SendsAll_example = sendmsg_all-SendsAll answers vectors []
