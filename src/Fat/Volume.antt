-- ===== src/Fat/Volume.antt =====
-- The geometry of a mounted volume, kernel/fat.c: `hasactive` to `neededcluster`.
--
-- `Volume` holds what the code reads through the globals `active_partition`, `main_partition` and
-- `fat`. `remap_boot`, which some functions call, points those globals at the same two buffers
-- again and panics if a boot signature is gone; here both signatures stand.
pub mod Mounted
pub mod Layout
pub mod Sample
use fastsystem.Prelude.{
  ℕ, zero, suc, ◌+◌, ◌-◌, ◌*◌, ◌/◌, ◌%◌, ◌≤◌, ◌<◌, ◌≡◌, Bool, true, false, not, ◌&&◌, ◌||◌, Option,
  none, some, ltb, leb, ◌==◌, if◌then◌else◌, u32,
}

pub record Volume : Type 0 where
  -- `none` is the -1 of `active_partition`.
  pub active_partition : Option ℕ
  pub partition_type : ℕ
  pub lba_start : ℕ
  pub fat_loaded : Bool
  pub signature : ℕ
  pub bytes_per_sector : ℕ
  pub sector_per_cluster : ℕ
  pub reserved_sectors_count : ℕ
  pub number_fats : ℕ
  pub root_entries_count : ℕ
  pub total_sectors_16 : ℕ
  pub total_sectors_32 : ℕ
  pub fat_size_16 : ℕ
  pub fat_size_32 : ℕ
  pub root_cluster : ℕ

abbrev pub sectorsize : ℕ
sectorsize = 512

abbrev pub max_partition : ℕ
max_partition = 4

abbrev pub fat_entry_size : ℕ
fat_entry_size = 32

pub sectortobytes : ℕ → ℕ
sectortobytes sector = u32 (sector * sectorsize)

pub bytestosector : ℕ → ℕ
bytestosector bytes = bytes / sectorsize

pub hasactive : Volume → Bool
hasactive v = elim v.active_partition [ none ↦ false | some i ↦ ltb i max_partition ]

pub isfat16type : Volume → Bool
isfat16type v =
    if not (hasactive v)
    then false
    else v.partition_type == 0x04 || v.partition_type == 0x06 || v.partition_type == 0x0E

pub isfat32type : Volume → Bool
isfat32type v =
    if not (hasactive v) then false else v.partition_type == 0x0B || v.partition_type == 0x0C

unfoldable pub isfattype : Volume → Bool
isfattype v = isfat16type v || isfat32type v

-- The checks of `loadfat` on the boot sector that it has read.
pub loadfat_checks : Volume → Bool
loadfat_checks v =
    if not (hasactive v) || not (isfattype v)
    then false
    else if not (v.signature == 0xAA55)
    then false
    else if not (v.bytes_per_sector == sectorsize)
    then false
    else if v.sector_per_cluster == 0
    then false
    else if v.number_fats == 0
    then false
    else if isfat16type v && v.fat_size_16 == 0
    then false
    else if isfat32type v && v.fat_size_32 == 0
    then false
    else true

pub getfatsize : Volume → ℕ
getfatsize v =
    if not v.fat_loaded
    then 0
    else if isfat16type v
    then v.fat_size_16
    else if isfat32type v
    then v.fat_size_32
    else 0

-- `lba_start + reserved_sectors_count + number_fats * getfatsize()`
pub getrootdirsector : Volume → ℕ
getrootdirsector v =
    if not (hasactive v) || not (isfattype v)
    then 0
    else let fat_start = u32 (v.lba_start + v.reserved_sectors_count) in
      let fat_size = getfatsize v in u32 (fat_start + v.number_fats * fat_size)

pub getrootdirsectorscount : Volume → ℕ
getrootdirsectorscount v =
    if not (hasactive v) || not (isfat16type v)
    then 0
    else let bytes = v.bytes_per_sector in
      let entries = v.root_entries_count in (fat_entry_size * entries + bytes - 1) / bytes

pub getfirstdatasector : Volume → ℕ
getfirstdatasector v =
    if not (hasactive v) || not (isfattype v)
    then 0
    else let fat_size = getfatsize v in
      let first_data = u32 (v.lba_start + v.reserved_sectors_count + v.number_fats * fat_size) in
      if isfat16type v then u32 (first_data + getrootdirsectorscount v) else first_data

pub getdatasectorcount : Volume → ℕ
getdatasectorcount v =
    if not (hasactive v) || not (isfattype v)
    then 0
    else let total = if v.total_sectors_16 == 0 then v.total_sectors_32 else v.total_sectors_16 in
      let tables = u32 (v.reserved_sectors_count + v.number_fats * getfatsize v) in
      let relative = if isfat16type v then u32 (tables + getrootdirsectorscount v) else tables in
      if leb total relative then 0 else total - relative

-- In the source the result of these two is unset for a type that is neither; `isfattype` has
-- excluded that.
pub getsectornumber : Volume → ℕ → ℕ
getsectornumber v sector =
    if not (hasactive v)
    then 0
    else if not (isfattype v)
    then 0
    else if isfat16type v
    then u32 (v.reserved_sectors_count + u32 (sector * 2) / v.bytes_per_sector)
    else u32 (v.reserved_sectors_count + u32 (sector * 4) / v.bytes_per_sector)

pub getentryoffset : Volume → ℕ → ℕ
getentryoffset v sector =
    if not (hasactive v)
    then 0
    else if not (isfattype v)
    then 0
    else if isfat16type v
    then u32 (sector * 2) % v.bytes_per_sector
    else u32 (sector * 4) % v.bytes_per_sector

pub islastcluster : Volume → ℕ → Bool
islastcluster v cluster =
    if not (hasactive v)
    then false
    else if not (isfattype v)
    then false
    else if isfat16type v
    then leb 0xFFF8 cluster
    else leb 0x0FFFFFF8 cluster

pub getclustercount : Volume → ℕ
getclustercount v =
    if not (hasactive v) || not (isfattype v)
    then 0
    else if v.sector_per_cluster == 0
    then 0
    else getdatasectorcount v / v.sector_per_cluster

pub clustertosector : Volume → ℕ → ℕ
clustertosector v cluster =
    if not (hasactive v) || not (isfattype v)
    then 0
    else if ltb cluster 2
    then 0
    else u32 (getfirstdatasector v + u32 ((cluster - 2) * v.sector_per_cluster))

pub getclusterfromsector : Volume → ℕ → ℕ
getclusterfromsector v sector =
    if not (hasactive v) || not (isfattype v)
    then 0
    else if ltb sector (getfirstdatasector v)
    then 0
    else if v.sector_per_cluster == 0
    then 0
    else u32 ((sector - getfirstdatasector v) / v.sector_per_cluster + 2)

pub getrootdircluster : Volume → ℕ
getrootdircluster v = if not (hasactive v) || not (isfat32type v) then 0 else v.root_cluster

pub getrootdirsectorstart : Volume → ℕ
getrootdirsectorstart v =
    if not (hasactive v) || not (isfattype v)
    then 0
    else if isfat16type v
    then getrootdirsector v
    else if isfat32type v
    then clustertosector v (getrootdircluster v)
    else 0

pub getfatentrysize : Volume → ℕ
getfatentrysize v = if isfat16type v then 2 else if isfat32type v then 4 else 0

pub getfatsector : Volume → ℕ → ℕ
getfatsector v cluster =
    if not (hasactive v) || not (isfattype v)
    then 0
    else let entry_size = getfatentrysize v in
      let entries_per_sector = v.bytes_per_sector / entry_size in
      if entry_size == 0
      then 0
      else if entries_per_sector == 0
      then 0
      else u32 (v.lba_start + v.reserved_sectors_count + cluster / entries_per_sector)

pub getfatentryoffset : Volume → ℕ → ℕ
getfatentryoffset v cluster =
    if not (hasactive v) || not (isfattype v)
    then 0
    else let entry_size = getfatentrysize v in
      let entries_per_sector = v.bytes_per_sector / entry_size in
      if entry_size == 0
      then 0
      else if entries_per_sector == 0
      then 0
      else cluster % entries_per_sector * entry_size

pub fat_eoc_mark : Volume → ℕ
fat_eoc_mark v = if isfat16type v then 0xFFF8 else if isfat32type v then 0x0FFFFFF8 else 0

pub fat_max_cluster : Volume → ℕ
fat_max_cluster v =
    let cluster_count = getclustercount v in
    if cluster_count == 0
    then 0
    else if cluster_count == 0xFFFFFFFF
    then 0xFFFFFFFF
    else cluster_count + 1

pub neededcluster : Volume → ℕ → ℕ
neededcluster v size =
    if not (hasactive v) || not (isfattype v)
    then 0
    else if v.sector_per_cluster == 0 || v.bytes_per_sector == 0
    then 0
    else let cluster_size = v.sector_per_cluster * v.bytes_per_sector in
      let count = u32 (size + cluster_size - 1) / cluster_size in
      let max_clusters = getclustercount v in
      if cluster_size == 0 || size == 0
      then 0
      else if max_clusters == 0 || ltb max_clusters count || ltb 0xFFFFFFFF count
      then 0
      else count
