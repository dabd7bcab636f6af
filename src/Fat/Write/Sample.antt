-- ===== src/Fat/Write/Sample.antt =====
-- The file on the small disk in memory, whose directory entry lies apart from its clusters.
use fastsystem.Prelude.{ℕ, ◌+◌, ◌≤◌, ◌≡◌, ◌≢◌, arith, [], ◌∷◌, ◌==◌, inl, inr, Bool-cases, ==→eq}
use fastsystem.Fat.Volume.{clustertosector}
use fastsystem.Fat.Volume.Layout.{clustertosector_bounds}
use fastsystem.Fat.Volume.Sample.{
  small_volume, small_volume-IsMounted, small_volume_values, small_volume_region,
}
use fastsystem.Fat.File.Sample.{some_file}
use fastsystem.Fat.Write.InPlace.{IsRecorded}

behind_root : (c i : ℕ) → 2 ≤ c → c ≤ 97 → clustertosector small_volume c + i ≢ 66
behind_root c i lo hi e =
    let b =
      clustertosector_bounds small_volume-IsMounted c lo (omega (arith, hi, small_volume_values)) in
    omega (arith, e, b.0, small_volume_region)

pub some_file-IsRecorded : IsRecorded small_volume 1000 some_file (6 ∷ [])
some_file-IsRecorded = record {
  offset = omega arith;
  on_disk = omega arith;
  behind_tables = omega (arith, small_volume_values);
  apart = λ c i h l. elim (Bool-cases (c == 5)) [
    | inl e ↦ behind_root c i (omega (arith, ==→eq c 5 e)) (omega (arith, ==→eq c 5 e))
    | inr e ↦
        let x : c ≡ 6 = ground (arith, h, e) in
        behind_root c i (omega (arith, x)) (omega (arith, x))
  ];
}
