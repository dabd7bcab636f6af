-- ===== src/Memory/Early.antt =====
-- The early allocator hands out pieces of memory that lie one after the other.
use fastsystem.Prelude.{
  ℕ, ◌+◌, ◌-◌, ◌*◌, ◌/◌, ◌%◌, ◌^◌, ◌≤◌, ◌<◌, ◌≡◌, ◌∙◌, refl, sym, ap, arith, bit_and, Bool, not,
  none, some, ◌==◌, if◌then◌else◌, u32, bit_and-split, bit_and-zero, bit_and-mask,
}
use fastsystem.Memory.{page_size, kmalloc_int, kmalloc_ap}

-- `placement_address & 0xFFFFF000` is the start of the page.
page_start : (p : ℕ) → p < 2 ^ 32 → bit_and p 0xFFFFF000 ≡ p - p % page_size
page_start p h =
    let e : bit_and (p / 2 ^ 12 * 2 ^ 12 + p % 2 ^ 12) (0xFFFFF * 2 ^ 12 + 0)
        ≡ bit_and (p / 2 ^ 12) 0xFFFFF * 2 ^ 12 + bit_and (p % 2 ^ 12) 0 =
      bit_and-split 12 (p / 2 ^ 12) (p % 2 ^ 12) 0xFFFFF 0 (omega arith) (omega arith) in
    let w : p / 2 ^ 12 * 2 ^ 12 + p % 2 ^ 12 ≡ p = omega arith in
    ap (λ q. bit_and q 0xFFFFF000) (sym w)
    ∙ e
    ∙ omega (arith, bit_and-mask 20 (p / 2 ^ 12), bit_and-zero (p % 2 ^ 12), h)

page_next :
    (p : ℕ)
    → page_size ≤ p
    → p + page_size < 2 ^ 32
    → (if not (p - p % page_size == 0) then u32 (p - p % page_size + page_size) else p)
      ≡ p - p % page_size + page_size
page_next p h k = ground arith

-- From a placement address outside page 0, and if the request ends below 2^32, an aligned piece
-- starts on a page boundary after the placement address and at most a page from it, the new address
-- is its end, and `*pa` is its start where it is wanted.
pub kmalloc_ap_lem :
    (p sz : ℕ) (wants_pa : Bool)
    → page_size ≤ p
    → p + page_size + sz < 2 ^ 32
    → let r = kmalloc_ap p sz wants_pa in
      (r.result % page_size ≡ 0)
      × (p < r.result)
      × (r.result ≤ p + page_size)
      × (r.placement_address ≡ r.result + sz)
      × (r.pa ≡ (if wants_pa then some r.result else none))
unfolding kmalloc_ap kmalloc_int
kmalloc_ap_lem p sz w k h =
    rw (page_start p (omega (arith, h)), page_next p k (omega (arith, h)))
      (omega arith, omega arith, omega arith, omega (arith, h), refl)
