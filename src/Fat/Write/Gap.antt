-- ===== src/Fat/Write/Gap.antt =====
-- `fat_write` and `fat_file_zero_range` call each other: the writes into a gap have none before
-- them.
use fastsystem.Prelude.{
  ℕ, zero, suc, ◌+◌, ◌-◌, ◌*◌, ◌≤◌, ◌<◌, ◌≡◌, refl, sym, ap, arith, Bool, true, false, not, List,
  replicate, ltb, leb, ◌==◌, if◌then◌else◌, inl, inr, Bool-cases, ==→eq,
}
use fastsystem.Fat.Volume.{Volume, sectorsize}
use fastsystem.Fat.Entries.{Device}
use fastsystem.Fat.File.{FatFile, fat_file_valid, fat_file_ensure_size}
use fastsystem.Fat.Write.{
  write_out, make_room, fat_write_with, zero_loop, fat_file_zero_range, fat_write_gapless,
  fat_write,
}
use fastsystem.Fat.Write.InPlace.{close_gap-none}

module _ (dev : Device) (v : Volume) where
  open dev use {Disk}

  fat_write_with-gapless :
      (fill fill' : Disk → FatFile → Bool × FatFile × Disk) (d : Disk) (f : FatFile) (es n : ℕ)
      (source : List ℕ)
      → f.position ≤ f.size
      → fat_write_with dev v fill d f es n source ≡ fat_write_with dev v fill' d f es n source
  unfolding fat_write_with
  fat_write_with-gapless fill fill' d f es n source h =
      rw (close_gap-none dev v fill d f h, close_gap-none dev v fill' d f h) refl

  make_room-position :
      (d : Disk) (f : FatFile) (end : ℕ) → (make_room dev v d f end).1.position ≡ f.position
  unfolding make_room fat_file_ensure_size
  make_room-position d f end = ground arith

  write_out-size :
      (d : Disk) (f : FatFile) (p n : ℕ) (source : List ℕ)
      → f.position ≡ p
      → let w = write_out dev v d f p 1 n source in p + w.0 ≤ w.1.size
  unfolding write_out
  write_out-size d f p n source e = ground arith

  -- What is written ends inside the file.
  fat_write_with-size :
      (fill : Disk → FatFile → Bool × FatFile × Disk) (d : Disk) (f : FatFile) (n : ℕ)
      (source : List ℕ)
      → f.position ≤ f.size
      → let w = fat_write_with dev v fill d f 1 n source in 0 < w.0 → f.position + w.0 ≤ w.1.size
  unfolding fat_write_with
  fat_write_with-size fill d f n source h =
      let r = make_room dev v d f (f.position + 1 * n) in
      let ends =
        write_out-size r.2 r.1 f.position (1 * n) source
          (make_room-position d f (f.position + 1 * n)) in
      rw (close_gap-none dev v fill d f h) (λ some_bytes. ground (arith, ends, some_bytes))

  fat_write-gapless :
      (d : Disk) (f : FatFile) (es n : ℕ) (source : List ℕ)
      → f.position ≤ f.size
      → fat_write dev v d f es n source ≡ fat_write_gapless dev v d f es n source
  unfolding fat_write fat_write_gapless
  fat_write-gapless d f es n source h =
      fat_write_with-gapless
        (λ d f. fat_file_zero_range dev v (fat_write_gapless dev v) d f f.size f.position)
        (λ d f. (false, f, d)) d f es n source h

  fat_write_gapless-size :
      (d : Disk) (f : FatFile) (n : ℕ) (source : List ℕ)
      → f.position ≤ f.size
      → let w = fat_write_gapless dev v d f 1 n source in 0 < w.0 → f.position + w.0 ≤ w.1.size
  unfolding fat_write_gapless
  fat_write_gapless-size d f n source h = fat_write_with-size (λ d f. (false, f, d)) d f n source h

  zero_loop-fat_write :
      (fuel : ℕ) (d : Disk) (f : FatFile) (start end : ℕ)
      → start ≤ f.size
      → zero_loop dev v (fat_write dev v) fuel d f start end
        ≡ zero_loop dev v (fat_write_gapless dev v) fuel d f start end
  unfolding zero_loop
  zero_loop-fat_write zero d f start end h = refl
  zero_loop-fat_write (suc fuel) d f start end h =
      let n = if ltb (end - start) sectorsize then end - start else sectorsize in
      let zeros : List ℕ = replicate sectorsize 0 in
      let w = fat_write_gapless dev v d (record f { position = start }) 1 n zeros in
      elim (Bool-cases (leb end start)) [
        | inl t ↦ rw t refl
        | inr t ↦
            let same : fat_write dev v d (record f { position = start }) 1 n zeros ≡ w =
              fat_write-gapless d (record f { position = start }) 1 n zeros h in
            elim (Bool-cases (w.0 == n)) [
              | inl e ↦
                  let all : w.0 ≡ n = ==→eq w.0 n e in
                  let ends : start + w.0 ≤ w.1.size =
                    fat_write_gapless-size d (record f { position = start }) n zeros h
                      (ground (arith, t, all)) in
                  rw (same, t, e)
                    (zero_loop-fat_write fuel w.2 w.1 (start + n) end (omega (arith, ends, all)))
              | inr e ↦ rw (same, t, e) refl
            ]
      ]

  zero_range-fat_write :
      (d : Disk) (f : FatFile)
      → fat_file_zero_range dev v (fat_write_gapless dev v) d f f.size f.position
        ≡ fat_file_zero_range dev v (fat_write dev v) d f f.size f.position
  unfolding fat_file_zero_range
  zero_range-fat_write d f =
      ap
        (λ (r : Bool × FatFile × Disk).
          if not (fat_file_valid v f)
          then (false, f, d)
          else if leb f.position f.size
          then (true, f, d)
          else r)
        (sym (zero_loop-fat_write (f.position - f.size) d f f.size f.position (omega arith)))

  -- `fat_write` is the function that calls `fat_file_zero_range`, which calls `fat_write` again, as
  -- the source has it: the writes into a gap start where the file ends, whatever the disk does, and
  -- so meet no gap themselves.
  fat_write-fat_file_zero_range :
      (d : Disk) (f : FatFile) (elements_size nmemb : ℕ) (source : List ℕ)
      → fat_write dev v d f elements_size nmemb source
        ≡ fat_write_with dev v
            (λ d f. fat_file_zero_range dev v (fat_write dev v) d f f.size f.position)
            d
            f
            elements_size
            nmemb
            source
  unfolding fat_write
  fat_write-fat_file_zero_range d f es n source =
      ap
        (λ (fill : Disk → FatFile → Bool × FatFile × Disk).
          fat_write_with dev v fill d f es n source)
        (λ i d f. zero_range-fat_write d f i)
