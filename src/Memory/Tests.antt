-- ===== src/Memory/Tests.antt =====
-- Memory at concrete bitmaps and addresses.
use fastsystem.Prelude.{
  ◌↔◌, ◌⊎◌, ℕ, ◌+◌, ◌*◌, ◌%◌, ◌≤◌, ◌<◌, ◌≡◌, refl, arith, true, false, some, List, [], ◌∷◌,
}
use fastsystem.Memory.{page_size, set_frame, test_frame, palloc_loop, palloc, pfree, kmalloc_ap}
use fastsystem.Memory.Frames.{AllTaken, IsTaken, palloc-IsTaken, palloc_null, pfree-palloc}
use fastsystem.Memory.Early.{kmalloc_ap_lem}

-- Of 16 frames the first 9 are in use.
abbrev bitmap : List ℕ
bitmap = 255 ∷ 1 ∷ []

free_frame : test_frame bitmap (9 * page_size) ≡ false
unfolding test_frame
free_frame = refl

palloc-value : palloc bitmap ≡ (36864, 255 ∷ 3 ∷ [])
unfolding palloc palloc_loop test_frame set_frame
palloc-value = refl

palloc-IsTaken_example : (i : ℕ) × IsTaken bitmap 0 (palloc bitmap) i
palloc-IsTaken_example = palloc-IsTaken bitmap (omega arith) 9 (omega arith) free_frame

pfree-palloc_example :
    test_frame (pfree (palloc bitmap).1 (palloc bitmap).0) 32768 ≡ test_frame bitmap 32768
pfree-palloc_example = pfree-palloc bitmap (omega arith) 9 (omega arith) free_frame 32768

-- Only frame 0 is free.
abbrev first_free : List ℕ
first_free = 254 ∷ []

palloc_null_example :
    ((palloc first_free).0 ≡ 0)
    ↔ ((test_frame first_free (0 * page_size) ≡ false) ⊎ AllTaken first_free 8)
palloc_null_example = palloc_null first_free (omega arith) (omega arith)

kmalloc_ap_lem_example :
    let r = kmalloc_ap 1048580 100 true in
    (r.result % page_size ≡ 0)
    × (1048580 < r.result)
    × (r.result ≤ 1048580 + page_size)
    × (r.placement_address ≡ r.result + 100)
    × (r.pa ≡ some r.result)
kmalloc_ap_lem_example = kmalloc_ap_lem 1048580 100 true (omega arith) (omega arith)
