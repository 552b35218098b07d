-- ===== src/Health/Detail.antt =====
-- The cap on the text of a failure.
use clash_nyanpasu_service.Shared.{
  ℕ, zero, suc, ◌≤◌, ◌<◌, ◌≡◌, refl, Bytes, true, false, length, take, arith, leb, Bool-cases,
  length-take, inl, inr,
}
use clash_nyanpasu_service.Health.{
  is_char_boundary, boundary_below, cap_detail, max_last_error_bytes,
}

boundary_below-le : (d : Bytes) (n : ℕ) → boundary_below d n ≤ n
unfolding boundary_below
boundary_below-le d zero = omega arith
boundary_below-le d (suc n) = ground (arith, boundary_below-le d n)

boundary_below-is_char_boundary :
    (d : Bytes) (n : ℕ)
    → is_char_boundary d 0 ≡ true
    → is_char_boundary d (boundary_below d n) ≡ true
unfolding boundary_below
boundary_below-is_char_boundary d zero h = h
boundary_below-is_char_boundary d (suc n) h = elim (Bool-cases (is_char_boundary d (suc n))) [
  | inl e ↦ rw e e
  | inr e ↦ rw e (boundary_below-is_char_boundary d n h)
]

boundary_below-greatest :
    (d : Bytes) (n i : ℕ) → i ≤ n → is_char_boundary d i ≡ true → i ≤ boundary_below d n
unfolding boundary_below
boundary_below-greatest d zero i le h = omega arith
boundary_below-greatest d (suc n) i le h = ground (arith, boundary_below-greatest d n i)

length-cap_detail :
    (d : Bytes)
    → max_last_error_bytes < length d
    → (length (cap_detail d) ≡ boundary_below d max_last_error_bytes)
      × (cap_detail d ≡ take (boundary_below d max_last_error_bytes) d)
unfolding cap_detail
length-cap_detail d long =
    let test : leb (length d) max_last_error_bytes ≡ false = ground arith in
    rw test (
      omega (
        arith,
        length-take (boundary_below d max_last_error_bytes) d,
        boundary_below-le d max_last_error_bytes,
      ),
      refl,
    )

-- A text of more than 512 bytes, which begins a character as every string does, is cut to a
-- beginning of it of at most 512 bytes that ends at a character boundary, and no boundary i up to
-- 512 lies behind the cut.
pub cap_detail-longest :
    (d : Bytes) (i : ℕ)
    → is_char_boundary d 0 ≡ true
    → max_last_error_bytes < length d
    → i ≤ max_last_error_bytes
    → is_char_boundary d i ≡ true
    → let kept = length (cap_detail d) in
      (cap_detail d ≡ take kept d)
      × (kept ≤ max_last_error_bytes)
      × (is_char_boundary d kept ≡ true)
      × (i ≤ kept)
cap_detail-longest d i start long le h =
    let (size, text) = length-cap_detail d long in
    rw size (
      text,
      boundary_below-le d max_last_error_bytes,
      boundary_below-is_char_boundary d max_last_error_bytes start,
      boundary_below-greatest d max_last_error_bytes i le h,
    )

-- A text within the cap is kept whole.
pub cap_detail-short : (d : Bytes) → length d ≤ max_last_error_bytes → cap_detail d ≡ d
unfolding cap_detail
cap_detail-short d h = ground arith
