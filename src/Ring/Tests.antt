-- ===== src/Ring/Tests.antt =====
-- The ring at small sizes, and the theorems at rings that have wrapped.
use sizigy.Base.{◌≡◌, refl, true, false, none, some, List, [], ◌∷◌, arith}
use sizigy.Ring.{
  Ringbuffer, ok, failed, Op, put, put_all, get, ask_size, ask_empty, clear, code, got, count, flag,
  done, reset, size, is_empty, push, bulk_push, pop, run,
}
use sizigy.Ring.Fifo
use sizigy.Ring.Valid.{IsValid}
use sizigy.Ring.Window.{contents}
use sizigy.Ring.Bulk.{run_refines}

abbrev raw : Ringbuffer
raw = record { buffer = []; head = 77; tail = 5; max = 9; full = true }

abbrev fresh : Ringbuffer
fresh = record { buffer = 0 ∷ 0 ∷ 0 ∷ []; head = 0; tail = 0; max = 3; full = false }

-- 8, then 9, round the end of the storage
abbrev turned : Ringbuffer
turned = record { buffer = 9 ∷ 7 ∷ 8 ∷ []; head = 1; tail = 2; max = 3; full = false }

turned-IsValid : IsValid turned
turned-IsValid = ground arith

abbrev script : List Op
script =
    put 1
    ∷ ask_size
    ∷ put 2
    ∷ get
    ∷ get
    ∷ get
    ∷ get
    ∷ ask_empty
    ∷ put_all (4 ∷ 5 ∷ 6 ∷ 7 ∷ [])
    ∷ clear
    ∷ get
    ∷ []

run-turned :
    run turned script
    ≡ code ok
      ∷ count 3
      ∷ code failed
      ∷ got ok (some 8)
      ∷ got ok (some 9)
      ∷ got ok (some 1)
      ∷ got failed none
      ∷ flag true
      ∷ code failed
      ∷ done
      ∷ got failed none
      ∷ []
unfolding run push bulk_push pop size is_empty reset
run-turned = refl

run_refines_example : run turned script ≡ Fifo.run 3 (contents turned) script
run_refines_example = run_refines script turned-IsValid
