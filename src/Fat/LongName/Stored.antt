-- ===== src/Fat/LongName/Stored.antt =====
-- The entries that `write_file_directory_entries` stores, byte by byte.
use fastsystem.Prelude.{
  ℕ, zero, suc, ◌+◌, ◌-◌, ◌*◌, ◌/◌, ◌%◌, ◌≤◌, ◌<◌, ◌≡◌, ◌∙◌, refl, sym, ap, arith, true, false, inl,
  inr, ◌&&◌, List, ltb, leb, ◌==◌, if◌then◌else◌, length, get_or, u8, u32, bit_or, Bool-cases,
}
use fastsystem.Fat.Volume.{sectorsize}
use fastsystem.Fat.Write.{paste}
use fastsystem.Fat.Write.Bytes.{over, get_or-paste, length-paste}
use fastsystem.Fat.LongName.{LfnEntry, lfn_bytes, lfn_entry, write_lfn_entry, write_lfn_entries}

-- Entry `i` of `n` for a name.
abbrev pub entry_of : List ℕ → ℕ → ℕ → ℕ → LfnEntry
entry_of name n checksum i =
    let number = u8 (n - i) in
    let character_offset = (n - 1 - i) * 13 in
    let remaining = length name - character_offset in
    lfn_entry (if i == 0 then bit_or number 0x40 else number) name character_offset
      (if leb (length name) character_offset then 0 else if ltb 13 remaining then 13 else remaining)
      checksum

-- The bytes from `offset` on, with entries `i` to `n - 1` in their places.
abbrev pub with_entries : (ℕ → ℕ) → ℕ → ℕ → ℕ → (ℕ → LfnEntry) → ℕ → ℕ
with_entries g offset i n entries x =
    if leb (offset + i * 32) x && ltb x (offset + n * 32)
    then get_or (lfn_bytes (entries ((x - offset) / 32))) ((x - offset) % 32) 0
    else g x

pub with_entries-inside :
    (g : ℕ → ℕ) (offset n : ℕ) (entries : ℕ → LfnEntry) (i k : ℕ)
    → i < n
    → k < 32
    → with_entries g offset 0 n entries (offset + (i * 32 + k)) ≡ get_or (lfn_bytes (entries i)) k 0
with_entries-inside g offset n entries i k h l =
    let x = offset + (i * 32 + k) in
    let q : (x - offset) / 32 ≡ i = omega (arith, l) in
    let r : (x - offset) % 32 ≡ k = omega (arith, l) in
    let t : (leb (offset + 0 * 32) x && ltb x (offset + n * 32)) ≡ true = ground (arith, h, l) in
    rw t (
      ap (λ (j : ℕ). get_or (lfn_bytes (entries j)) ((x - offset) % 32) 0) q
      ∙ ap (λ (j : ℕ). get_or (lfn_bytes (entries i)) j 0) r)

with_entries-step :
    (g g' : ℕ → ℕ) (offset i n : ℕ) (entries : ℕ → LfnEntry) (x : ℕ)
    → i < n
    → g' x ≡ over g (offset + i * 32) 32 (lfn_bytes (entries i)) 0 x
    → with_entries g' offset (i + 1) n entries x ≡ with_entries g offset i n entries x
with_entries-step g g' offset i n entries x h e =
    elim (Bool-cases (leb (offset + i * 32) x && ltb x (offset + i * 32 + 32))) [
      | inl t ↦
          let q : (x - offset) / 32 ≡ i = ground (arith, t) in
          let r : 0 + (x - (offset + i * 32)) ≡ (x - offset) % 32 = ground (arith, t) in
          let same : get_or (lfn_bytes (entries ((x - offset) / 32))) ((x - offset) % 32) 0
              ≡ get_or (lfn_bytes (entries i)) (0 + (x - (offset + i * 32))) 0 =
            ap (λ (k : ℕ). get_or (lfn_bytes (entries k)) ((x - offset) % 32) 0) q
            ∙ ap (λ (k : ℕ). get_or (lfn_bytes (entries i)) k 0) (sym r) in
          ground (arith, h, e, t, same)
      | inr t ↦ ground (arith, h, e, t)
    ]

write_lfn_entries-step :
    (left i : ℕ) (buffer : List ℕ) (offset : ℕ) (name : List ℕ) (n checksum : ℕ)
    → offset + i * 32 + 32 ≤ sectorsize
    → write_lfn_entries (suc left) i buffer offset name n checksum
      ≡ write_lfn_entries left
          (i + 1)
          (paste buffer (offset + i * 32) (lfn_bytes (entry_of name n checksum i)) 0 32)
          offset
          name
          n
          checksum
unfolding write_lfn_entries write_lfn_entry
write_lfn_entries-step left i buffer offset name n checksum h =
    let t : ltb sectorsize (u32 (offset + i * 32 + 32)) ≡ false = ground (arith, h) in rw t refl

pub write_lfn_entries_lem :
    (left i : ℕ) (buffer : List ℕ) (offset : ℕ) (name : List ℕ) (n checksum : ℕ)
    → i + left ≡ n
    → offset + n * 32 ≤ sectorsize
    → length buffer ≡ sectorsize
    → let r = write_lfn_entries left i buffer offset name n checksum in
      (r.0 ≡ true)
      × (length r.1 ≡ sectorsize)
      × ((x : ℕ)
          → get_or r.1 x 0
            ≡ with_entries (λ y. get_or buffer y 0) offset i n (entry_of name n checksum) x)
unfolding write_lfn_entries
write_lfn_entries_lem zero i buffer offset name n checksum e h len =
    (refl, len, λ x. ground (arith, e))
write_lfn_entries_lem (suc left) i buffer offset name n checksum e h len =
    let entry = lfn_bytes (entry_of name n checksum i) in
    let here = paste buffer (offset + i * 32) entry 0 32 in
    let (done, kept, bytes) =
      write_lfn_entries_lem left (i + 1) here offset name n checksum (omega (arith, e)) h
        (length-paste buffer (offset + i * 32) entry 0 32 ∙ len) in
    rw (write_lfn_entries-step left i buffer offset name n checksum (omega (arith, e, h))) (
      done,
      kept,
      λ x.
          let pasted =
            get_or-paste buffer (offset + i * 32) entry 0 32 x (omega (arith, e, h, len)) in
          bytes x
          ∙ with_entries-step (λ y. get_or buffer y 0) (λ y. get_or here y 0) offset i n
              (entry_of name n checksum) x (omega (arith, e)) pasted,
    )
