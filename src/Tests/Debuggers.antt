-- ===== src/Tests/Debuggers.antt =====
-- Two debuggers that draw their numbers at the same time, and the text of a time.
use scamp_go.Base.{◌≡◌, refl, [], ◌∷◌, arith, codes}
use scamp_go.Base.Decimal.{format_uint, format_int}
use scamp_go.Debugger.{loading, swapping, drawn, attempt_step, tee_path}
use scamp_go.Timestamp.{time_text}
use scamp_go.Debugger.Drawn.{Reach, start, next, comes, steps, AreApart, Reach-AreApart}

both_come : Reach (record { id = 0; attempts = loading 10 ∷ loading 10 ∷ [] })
both_come = next (next (start 0) (comes _)) (comes _)

both_load : Reach (record { id = 0; attempts = swapping 9 0 ∷ swapping 9 0 ∷ [] })
unfolding attempt_step
both_load =
    next (next both_come (steps 0 [] (loading 10) (loading 10 ∷ []) (omega arith)))
      (steps 0 (swapping 9 0 ∷ []) (loading 10) [] (omega arith))

-- The first swap works; the second is lost, and tried again.
both_draw : Reach (record { id = 2; attempts = drawn 1 ∷ drawn 2 ∷ [] })
unfolding attempt_step
both_draw =
    next
      (next
        (next (next both_load (steps 0 [] (swapping 9 0) (swapping 9 0 ∷ []) (omega arith)))
          (steps 1 (drawn 1 ∷ []) (swapping 9 0) [] (omega arith)))
        (steps 1 (drawn 1 ∷ []) (loading 9) [] (omega arith)))
      (steps 1 (drawn 1 ∷ []) (swapping 8 1) [] (omega arith))

Reach-AreApart_example : AreApart (drawn 1 ∷ drawn 2 ∷ [])
Reach-AreApart_example = Reach-AreApart both_draw

path : tee_path (codes "AbC=") (codes "client") 12 ≡ codes "/tmp/scamp_proto.bin.AbC=.client.12"
unfolding tee_path format_uint
path = refl

-- Five seconds and fifty milliseconds read as five and a half seconds.
late_text : time_text 5 50000 ≡ codes "5.50000"
unfolding time_text format_int format_uint
late_text = refl
