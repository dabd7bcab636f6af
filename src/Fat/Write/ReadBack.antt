-- ===== src/Fat/Write/ReadBack.antt =====
-- What `fat_write` writes, `fat_seek` and `fat_read` find again.
use fastsystem.Prelude.{
  ℕ, ◌+◌, ◌-◌, ◌*◌, ◌/◌, ◌^◌, ◌≤◌, ◌<◌, ◌≡◌, ◌∙◌, refl, arith, true, false, List, ◌∷◌, length, ltb,
  leb, pos,
}
use native.Mathlib.Nat.{mul-div_right}
use fastsystem.Fat.Volume.{Volume, getfirstdatasector, getdatasectorcount}
use fastsystem.Fat.Volume.Mounted.{IsMounted}
use fastsystem.Fat.Entries.{Device, IsSound}
use fastsystem.Fat.File.{FatFile, fat_file_valid, fat_seek, fat_read, seek_set, seek_base}
use fastsystem.Fat.File.Contents.{chain_byte, IsOpen}
use fastsystem.Fat.File.Position.{target, sought, fat_seek_lem}
use fastsystem.Fat.File.Reading.{fat_read_lem}
use fastsystem.Fat.Write.{fat_write}
use fastsystem.Fat.Write.Bytes.{range-over}
use fastsystem.Fat.Write.InPlace.{IsRecorded, fat_write_lem}

seek_back :
    (v : Volume) (f : FatFile) (p : ℕ)
    → fat_file_valid v f ≡ true
    → p ≤ 0x7FFFFFFF
    → fat_seek v f (pos p) seek_set ≡ (true, record f { position = p; eof = false })
unfolding seek_base target sought
seek_back v f p valid h =
    let t : leb (0 + p) 0x7FFFFFFF ≡ true = ground arith in
    let z : 0 + p ≡ p = omega arith in
    fat_seek_lem v f (pos p) seek_set 0 valid refl (omega arith) (omega arith) ∙ rw (t, z) refl

module _ {dev : Device} {v : Volume} {size : ℕ} (m : IsMounted v) (sound : IsSound dev size)
    (room : getfirstdatasector v + getdatasectorcount v ≤ size)
    (small : v.sector_per_cluster < 2 ^ 8) where
  -- On a mounted volume with less than 2^8 sectors in a cluster that lies on a disk without errors,
  -- all of the elements, one at least and of one byte at least, in a count of bytes of 32 bits,
  -- that are written inside a file of less than 2^32 bytes which is open to read and to write, and
  -- whose directory entry lies apart from the tables and from its clusters, are written, and are
  -- read again as they were once the position has been set back, which succeeds if it was at most
  -- 2^31 - 1.
  pub fat_read-fat_write :
      (d : dev.Disk) (f : FatFile) (rest : List ℕ) (elements_size nmemb : ℕ) (source : List ℕ)
      → IsOpen dev v d f rest
      → IsRecorded v size f rest
      → f.readable ≡ true
      → f.writable ≡ true
      → 0 < elements_size
      → 0 < nmemb
      → nmemb ≤ 0xFFFFFFFF / elements_size
      → f.position + elements_size * nmemb ≤ f.size
      → f.size < 2 ^ 32
      → f.position ≤ 0x7FFFFFFF
      → length source ≡ elements_size * nmemb
      → let written = fat_write dev v d f elements_size nmemb source in
        let sought_back = fat_seek v written.1 (pos f.position) seek_set in
        let got = fat_read dev v written.2 sought_back.1 elements_size nmemb in
        (written.0 ≡ nmemb) × (sought_back.0 ≡ true) × (got.0 ≡ nmemb) × (got.1 ≡ source)
  unfolding fat_file_valid
  fat_read-fat_write d f rest es nmemb source o r readable w h k l inside few low len =
      let n = es * nmemb in
      let some_bytes : 0 < n = grind arith in
      let f' : FatFile = record f { position = f.position + n } in
      let f'' : FatFile = record f { eof = false } in
      let (d', e, o', bytes, _) =
        fat_write_lem m sound room small d f rest es nmemb source o r w h k l inside few in
      let o'' : IsOpen dev v d' f'' rest = record {
        valid = o'.valid;
        links = o'.links;
        fits = o'.fits;
      } in
      let back = seek_back v f' f.position o'.valid low in
      let got =
        fat_read_lem m sound room small d' f'' rest o'' es nmemb readable h k l
          (omega (arith, inside, some_bytes)) in
      let t : ltb (f.size - f.position) n ≡ false = ground (arith, inside) in
      let q : n / es ≡ nmemb = mul-div_right nmemb h in
      let same =
        range-over (chain_byte dev v d (f.first_cluster ∷ rest))
          (chain_byte dev v d' (f.first_cluster ∷ rest)) f.position n source len
          (λ i lt. bytes (f.position + i) (omega (arith, lt, inside, o.fits))) in
      rw (e, back, got, t) (refl, refl, q, same)
