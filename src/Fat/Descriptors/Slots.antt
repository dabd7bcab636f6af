-- ===== src/Fat/Descriptors/Slots.antt =====
-- The entries of the table of descriptors: which one is taken, and what clearing it gives back.
use fastsystem.Prelude.{
  ℕ, zero, suc, ◌+◌, ◌≤◌, ◌<◌, ◌≡◌, ◌∙◌, refl, sym, ap, arith, true, false, inl, inr, ◌⊎◌, none,
  some, List, [], ◌∷◌, ltb, leb, ◌==◌, length, get_or, set, Bool-cases, ==→eq, ◌||◌, pos,
  get_or-set_self,
}
use fastsystem.Fat.Descriptors.{
  FdEntry, fd_none, fd_file, fd_dir, is_none, alloc_loop, alloc_fd, entry_at,
}

module _ {Dir : Type 0} where
  pub is_none-eq : (e : FdEntry Dir) → is_none e ≡ true → e ≡ fd_none
  unfolding is_none
  is_none-eq fd_none h = refl
  is_none-eq (fd_file f) h = absurd (ground (arith, h))
  is_none-eq (fd_dir dir) h = absurd (ground (arith, h))

  -- The entries from `i` to before `k` are in use.
  abbrev pub AllUsed : List (FdEntry Dir) → ℕ → ℕ → Type 0
  AllUsed table i k = (j : ℕ) → i ≤ j → j < k → is_none (get_or table j fd_none) ≡ false

  -- The first free entry from `i` on is `k`.
  pub record IsLowest (table : List (FdEntry Dir)) (i left k : ℕ) : Type 0 where
    pub from : i ≤ k
    pub below : k < i + left
    pub free : get_or table k fd_none ≡ fd_none
    pub used : AllUsed table i k

  used_step :
      (table : List (FdEntry Dir)) (i k : ℕ)
      → is_none (get_or table i fd_none) ≡ false
      → AllUsed table (i + 1) k
      → AllUsed table i k
  used_step table i k h u j l m = elim (Bool-cases (j == i)) [
    | inl e ↦ ap (λ (n : ℕ). is_none (get_or table n fd_none)) (==→eq j i e) ∙ h
    | inr e ↦ u j (ground (arith, e, l)) m
  ]

  alloc_loop_lem :
      (table : List (FdEntry Dir)) (left i : ℕ)
      → ((alloc_loop left table i ≡ none) × AllUsed table i (i + left))
        ⊎ ((k : ℕ) × (alloc_loop left table i ≡ some k) × IsLowest table i left k)
  unfolding alloc_loop
  alloc_loop_lem table zero i = inl (refl, λ j l m. absurd (omega (arith, l, m)))
  alloc_loop_lem table (suc left) i = elim (Bool-cases (is_none (get_or table i fd_none))) [
    | inl t ↦ inr (
      i,
      rw t refl,
      record {
        from = omega arith;
        below = omega arith;
        free = is_none-eq (get_or table i fd_none) t;
        used = λ j l m. absurd (omega (arith, l, m));
      },
    )
    | inr t ↦ elim (alloc_loop_lem table left (i + 1)) [
      | inl (e, u) ↦
          inl
            (rw (t, e) refl, used_step table i (i + suc left) t (λ j l m. u j l (omega (arith, m))))
      | inr (k, e, w) ↦ inr (
        k,
        rw (t, e) refl,
        record {
          from = omega (arith, w.from);
          below = omega (arith, w.below);
          free = w.free;
          used = used_step table i k t w.used;
        },
      )
    ]
  ]

  pub alloc_fd_lem :
      (table : List (FdEntry Dir))
      → ((alloc_fd table ≡ none) × AllUsed table 8 1024)
        ⊎ ((k : ℕ) × (alloc_fd table ≡ some k) × IsLowest table 8 1016 k)
  unfolding alloc_fd
  alloc_fd_lem table = alloc_loop_lem table 1016 8

  pub set-set_back :
      (table : List (FdEntry Dir)) (k : ℕ) (e : FdEntry Dir)
      → k < length table
      → get_or table k fd_none ≡ fd_none
      → set (set table k e) k fd_none ≡ table
  set-set_back [] k e h f = absurd (omega (arith, h))
  set-set_back (x ∷ table) zero e h f = ap (λ y. y ∷ table) (sym f)
  set-set_back (x ∷ table) (suc k) e h f =
      ap (λ xs. x ∷ xs) (set-set_back table k e (omega (arith, h)) f)

  pub entry_at-set :
      (table : List (FdEntry Dir)) (k : ℕ) (e : FdEntry Dir)
      → 8 ≤ k
      → k < 1024
      → k < length table
      → entry_at (set table k e) (pos k) ≡ e
  unfolding entry_at
  entry_at-set table k e h l m =
      let t : (ltb k 8 || leb 1024 k) ≡ false = ground (arith, h, l) in
      rw t (get_or-set_self table k e fd_none m)
