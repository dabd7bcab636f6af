-- ===== src/Fat/Write/Loops.antt =====
-- The loop of `fat_write` over the sectors of a cluster, on a disk without errors.
use fastsystem.Prelude.{
  ℕ, zero, suc, ◌+◌, ◌-◌, ◌*◌, ◌/◌, ◌%◌, ◌≤◌, ◌<◌, ◌≡◌, ◌∙◌, refl, sym, ap, arith, Bool, true,
  false, not, ◌&&◌, ◌||◌, some, List, length, get_or, replicate, length-replicate, u32, ltb, leb,
  ◌==◌, if◌then◌else◌, inl, inr, Bool-cases, ==→eq,
}
use mathlib.Core.Path.{subst}
use native.Mathlib.Nat.{div-add-mod'}
use fastsystem.Fat.Volume.{
  Volume, sectorsize, clustertosector, getfatsize, getfirstdatasector, getdatasectorcount,
  fat_max_cluster,
}
use fastsystem.Fat.Volume.Mounted.{IsMounted, mounted-sizes}
use fastsystem.Fat.Volume.Layout.{clustertosector_bounds, data_region_bound, tables_before_data}
use fastsystem.Fat.Entries.{Device, IsSound}
use fastsystem.Fat.File.Contents.{sector_byte, sector_byte-read}
use fastsystem.Fat.File.Reading.{least, least_bounds}
use fastsystem.Fat.Write.{paste, write_sectors}
use fastsystem.Fat.Write.Bytes.{over, over-over, disk_byte, disk_byte-write, length-paste}

-- The first sector behind the tables.
abbrev pub tables_end : Volume → ℕ
tables_end v = v.lba_start + v.reserved_sectors_count + v.number_fats * getfatsize v

-- `n` bytes of a source, from `s` on, were written from the address `a` on, and nothing else; no
-- sector of the tables was touched.
pub record Wrote (dev : Device) (v : Volume) (d d' : dev.Disk) (a n : ℕ) (source : List ℕ) (s : ℕ)
    : Type 0 where
  pub bytes : (x : ℕ) → disk_byte dev v d' x ≡ over (disk_byte dev v d) a n source s x
  pub tables : (i : ℕ) → i < tables_end v → dev.read d' i ≡ dev.read d i

pub Wrote-nothing :
    (dev : Device) (v : Volume) (d : dev.Disk) (a n : ℕ) (source : List ℕ) (s : ℕ)
    → n ≡ 0
    → Wrote dev v d d a n source s
Wrote-nothing dev v d a n source s z = record {
  bytes = λ x. ground (arith, z);
  tables = λ i h. refl;
}

pub Wrote-trans :
    (dev : Device) (v : Volume) (d d1 d2 : dev.Disk) (a n : ℕ) (source : List ℕ) (s a' k s' m : ℕ)
    → a' ≡ a + n
    → s' ≡ s + n
    → m ≡ n + k
    → Wrote dev v d d1 a n source s
    → Wrote dev v d1 d2 a' k source s'
    → Wrote dev v d d2 a m source s
Wrote-trans dev v d d1 d2 a n source s a' k s' m e1 e2 e3 w1 w2 = record {
  bytes = λ x.
      w2.bytes x
      ∙ ap (λ (y : ℕ). if leb a' x && ltb x (a' + k) then get_or source (s' + (x - a')) 0 else y)
          (w1.bytes x)
      ∙ rw (e1, e2, e3) (over-over (disk_byte dev v d) a n k source s x);
  tables = λ i h. w2.tables i h ∙ w1.tables i h;
}

module _ {dev : Device} {v : Volume} {size : ℕ} (m : IsMounted v) (sound : IsSound dev size)
    (room : getfirstdatasector v + getdatasectorcount v ≤ size) where
  -- What is pasted into: the sector as it is, or zeros if all of it is written.
  sector_before :
      (d : dev.Disk) (a o n : ℕ)
      → a < size
      → n ≤ sectorsize
      → (b : List ℕ) × ((if not (o == 0) || not (n == sectorsize)
            then dev.read d a
            else some (replicate sectorsize 0))
          ≡ some b)
        × (length b ≡ sectorsize)
        × ((j : ℕ)
            → j < sectorsize
            → (leb o j && ltb j (o + n)) ≡ false
            → get_or b j 0 ≡ sector_byte dev v d a j)
  sector_before d a o n h l = elim (Bool-cases (not (o == 0) || not (n == sectorsize))) [
    | inl t ↦
        let (b, e, len) = sound.read_done d a h in
        (b, rw t e, len, λ j k q. sym (sector_byte-read dev v d a j b e))
    | inr t ↦ (
      replicate sectorsize 0,
      rw t refl,
      length-replicate {A = ℕ} sectorsize 0,
      λ j k q. absurd (ground (arith, t, k, q)),
    )
  ]

  -- What a round of the inner loop comes to, for sectors of `w` bytes and the sector `a`.
  abbrev Round : ℕ → dev.Disk → ℕ → ℕ → ℕ → List ℕ → ℕ → List ℕ → ℕ → ℕ → Type 0
  Round fuel d c offset amount source s b w a =
      let o = offset % w in
      let n = least amount (w - o) in
      let stored = dev.write d a (paste b o source s n) in
      let rest = write_sectors dev v fuel stored.1 c (offset + n) (amount - n) source (s + n) in
      (if not (o == 0) || not (n == w) then dev.read d a else some (replicate sectorsize 0))
        ≡ some b
      → stored.0 ≡ true
      → write_sectors dev v (suc fuel) d c offset amount source s ≡ (rest.0, n + rest.1, rest.2)

  write_sectors-step :
      (fuel : ℕ) (d : dev.Disk) (c offset amount : ℕ) (source : List ℕ) (s : ℕ) (b : List ℕ)
      → (amount == 0) ≡ false
      → (w : ℕ) → v.bytes_per_sector ≡ w
      → (a : ℕ) → u32 (clustertosector v c + offset / w) ≡ a
      → Round fuel d c offset amount source s b w a
  unfolding write_sectors
  write_sectors-step fuel d c offset amount source s b z w p =
      subst
        (λ (w : ℕ).
          (a : ℕ)
          → u32 (clustertosector v c + offset / w) ≡ a
          → Round fuel d c offset amount source s b w a)
        p
        λ a place.
          subst (λ (a : ℕ). Round fuel d c offset amount source s b v.bytes_per_sector a) place
            λ e done. rw (z, e, done) refl

  pub write_sectors_lem :
      (fuel : ℕ) (d : dev.Disk) (c offset amount : ℕ) (source : List ℕ) (s : ℕ)
      → 2 ≤ c
      → c ≤ fat_max_cluster v
      → offset + amount ≤ sectorsize * v.sector_per_cluster
      → amount ≤ fuel
      → (d' : dev.Disk) × (write_sectors dev v fuel d c offset amount source s ≡ (true, amount, d'))
        × Wrote dev v d d' (clustertosector v c * sectorsize + offset) amount source s
  unfolding write_sectors
  write_sectors_lem zero d c offset amount source s lo hi h l =
      let z : amount ≡ 0 = omega (arith, l) in
      (
        d,
        rw z refl,
        Wrote-nothing dev v d (clustertosector v c * sectorsize + offset) amount source s z,
      )
  write_sectors_lem (suc fuel) d c offset amount source s lo hi h l =
      elim (Bool-cases (amount == 0)) [
        | inl z ↦
            let y : amount ≡ 0 = ==→eq amount 0 z in
            (
              d,
              rw y refl,
              Wrote-nothing dev v d (clustertosector v c * sectorsize + offset) amount source s y,
            )
        | inr some_left ↦
            let o = offset % sectorsize in
            let a = clustertosector v c + offset / sectorsize in
            let n = least amount (sectorsize - o) in
            let bound =
              least_bounds amount (sectorsize - o) (ground (arith, some_left)) (omega arith) in
            let (start, end) = clustertosector_bounds m c lo hi in
            let (few, first, second) = bound in
            let place : u32 a ≡ a = omega (arith, end, data_region_bound m, h, few, first) in
            let small : a < size = omega (arith, end, room, h, few, first) in
            let (b, e, len, same) = sector_before d a o n small (omega (arith, second)) in
            let p = paste b o source s n in
            let d1 = (dev.write d a p).1 in
            let len' : length p ≡ sectorsize = length-paste b o source s n ∙ len in
            let done = sound.write_done d a p small len' in
            let (d2, r, w) =
              write_sectors_lem fuel d1 c (offset + n) (amount - n) source (s + n) lo hi
                (omega (arith, bound, h)) (omega (arith, bound, l)) in
            let whole : n + (amount - n) ≡ amount = omega (arith, bound) in
            let here : Wrote dev v d d1 (clustertosector v c * sectorsize + offset) n source s =
              record {
                bytes = λ x.
                    disk_byte-write dev v sound d a b o source s n small len (omega (arith, second))
                      same x
                    ∙ ap (λ (i : ℕ). over (disk_byte dev v d) i n source s x)
                        (omega (arith, div-add-mod' offset sectorsize));
                tables = λ i lt.
                    ground
                      (arith, sound.read-write d a i p small len', lt, start, tables_before_data m);
              } in
            (
              d2,
              write_sectors-step fuel d c offset amount source s b some_left sectorsize
                    (mounted-sizes m).0 a place e done
                  ∙ ap (λ (r : Bool × ℕ × dev.Disk). (r.0, n + r.1, r.2)) r
                  ∙ ap (λ (i : ℕ). (true, i, d2)) whole,
              Wrote-trans dev v d d1 d2 (clustertosector v c * sectorsize + offset) n source s
                  (clustertosector v c * sectorsize + (offset + n)) (amount - n) (s + n) amount
                  (omega arith) refl (sym whole) here w,
            )
      ]
