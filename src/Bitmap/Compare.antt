-- ===== src/Bitmap/Compare.antt =====
-- source/gen_bitmap.c: comparing two bitmaps, by bytes and then by their last numbers.
use native.Mathlib.Nat.{two-pow-succ}
use libext2fs.Prelude.{
  ℕ, zero, suc, ◌+◌, ◌-◌, ◌*◌, ◌/◌, ◌%◌, ◌^◌, ◌≤◌, ◌<◌, ◌≡◌, ◌≢◌, ◌↔◌, inl, inr, refl, sym, ap, ◌∙◌,
  List, true, false, if◌then◌else◌, ltb, ◌==◌, arith, Bool-cases, sub32,
}
use libext2fs.Bits.{bit}
use libext2fs.Bitops.{byte}
use libext2fs.Bitops.Laws.{member, member-lt, IsBytes, test_bit_lem}
use libext2fs.Bitmap.{
  Bitmap, outside, same_bytes, differs, test_generic_bitmap, compare_generic_bitmap,
}
use libext2fs.Bitmap.Valid.{IsValid, truth-test}

low_bits_ext : (n a b : ℕ) → a < 2 ^ n → b < 2 ^ n → ((i : ℕ) → i < n → bit a i ≡ bit b i) → a ≡ b
unfolding bit
low_bits_ext zero a b p q h = omega arith
low_bits_ext (suc n) a b p q h = omega (
  arith,
  h 0 (omega arith),
  low_bits_ext n (a / 2) (b / 2) (omega (arith, two-pow-succ n)) (omega (arith, two-pow-succ n))
      (λ i hi. h (suc i) (omega arith)),
)

-- Two arrays agree on a byte exactly when they agree on its 8 bits.
byte_iff :
    (b1 b2 : List ℕ) (j : ℕ)
    → IsBytes b1
    → IsBytes b2
    → (byte b1 j ≡ byte b2 j) ↔ ((i : ℕ) → i < 8 → member b1 (8 * j + i) ≡ member b2 (8 * j + i))
unfolding member
byte_iff b1 b2 j h1 h2 = (
  λ e i hi. let q : (8 * j + i) / 8 ≡ j = omega arith in rw q (rw e refl),
  λ h. low_bits_ext 8 (byte b1 j) (byte b2 j) (h1 j) (h2 j) (λ i hi.
      let q : j ≡ (8 * j + i) / 8 = omega arith in
      let r : i ≡ (8 * j + i) % 8 = omega arith in
      ap {A = ℕ} (λ t. bit (byte b1 t) i) q
      ∙ ap {A = ℕ} (λ t. bit (byte b1 ((8 * j + i) / 8)) t) r
      ∙ h i hi
      ∙ ap {A = ℕ} (λ t. bit (byte b2 ((8 * j + i) / 8)) t) (sym r)
      ∙ ap {A = ℕ} (λ t. bit (byte b2 t) i) (sym q)),
)

same_bytes_iff :
    (b1 b2 : List ℕ) (n : ℕ)
    → IsBytes b1
    → IsBytes b2
    → (same_bytes b1 b2 n ≡ true) ↔ ((j : ℕ) → j < 8 * n → member b1 j ≡ member b2 j)
unfolding same_bytes
same_bytes_iff b1 b2 zero h1 h2 = (λ _ j h. absurd (omega arith), λ _. refl)
same_bytes_iff b1 b2 (suc n) h1 h2 = (
  λ h j hj. elim (Bool-cases (ltb j (8 * n))) [
    | inl e ↦ (same_bytes_iff b1 b2 n h1 h2).0 (ground arith) j (ground arith)
    | inr e ↦
        let q : j ≡ 8 * n + (j - 8 * n) = ground arith in
        rw q ((byte_iff b1 b2 n h1 h2).0 (ground arith) (j - 8 * n) (ground arith))
  ],
  λ h. ground (
    arith,
    (same_bytes_iff b1 b2 n h1 h2).1 (λ j hj. h j (omega arith)),
    (byte_iff b1 b2 n h1 h2).1 (λ i hi. h (8 * n + i) (omega arith)),
  ),
)

differs_iff :
    (bm1 bm2 : Bitmap) (n i : ℕ)
    → (differs bm1 bm2 n i ≡ false)
      ↔ ((k : ℕ) → k < n → test_generic_bitmap bm1 (i + k) ≡ test_generic_bitmap bm2 (i + k))
unfolding differs
differs_iff bm1 bm2 zero i = (λ _ k h. absurd (omega arith), λ _. refl)
differs_iff bm1 bm2 (suc n) i = (
  λ h k hk. elim (Bool-cases (k == 0)) [
    | inl e ↦ let q : i + k ≡ i = ground arith in rw q (ground (arith, h))
    | inr e ↦
        let q : i + k ≡ i + 1 + (k - 1) = ground arith in
        rw q ((differs_iff bm1 bm2 n (i + 1)).0 (ground (arith, h)) (k - 1) (ground arith))
  ],
  λ h.
      let q : i + 0 ≡ i = omega arith in
      let first : test_generic_bitmap bm1 i ≡ test_generic_bitmap bm2 i =
        rw (← q) (h 0 (omega arith)) in
      ground (
        arith,
        first,
        (differs_iff bm1 bm2 n (i + 1)).1
            (λ k hk. let r : i + 1 + k ≡ i + suc k = omega arith in rw r (h (suc k) (omega arith))),
      ),
)

module _ (bm1 bm2 : Bitmap) (v1 : IsValid bm1) (v2 : IsValid bm2) (es : bm1.start ≡ bm2.start)
    (ee : bm1.end ≡ bm2.end) where
  value :
      (bm : Bitmap) (m : ℕ)
      → IsValid bm
      → test_generic_bitmap bm m
        ≡ (if outside bm m then 0 else member bm.bitmap (m - bm.start) * 2 ^ ((m - bm.start) % 8))
  unfolding test_generic_bitmap
  value bm m v = rw v.kind (elim (Bool-cases (outside bm m)) [
    | inl e ↦ rw e refl
    | inr e ↦ rw e (test_bit_lem (m - bm.start) bm.bitmap (v.bytes ((m - bm.start) / 8)))
  ])

  member_at : (bytes : List ℕ) (j k : ℕ) → j ≡ k → member bytes j ≡ member bytes k
  member_at bytes j k e = ap (member bytes) e

  power_at : (j k : ℕ) → j ≡ k → 2 ^ (j % 8) ≡ 2 ^ (k % 8)
  power_at j k e = ap {A = ℕ} (λ t. 2 ^ (t % 8)) e

  -- Within the limits, the tests agree exactly where the arrays do.
  tests→members :
      (j m : ℕ)
      → m ≡ bm1.start + j
      → m ≤ bm1.end
      → test_generic_bitmap bm1 m ≡ test_generic_bitmap bm2 m
      → member bm1.bitmap j ≡ member bm2.bitmap j
  tests→members j m e h t = ground (
    arith,
    es,
    ee,
    truth-test bm1 m v1,
    truth-test bm2 m v2,
    member-lt bm1.bitmap j,
    member-lt bm2.bitmap j,
    member_at bm1.bitmap (m - bm1.start) j (omega arith),
    member_at bm2.bitmap (m - bm2.start) j (omega (arith, es)),
  )

  members→tests :
      ((j : ℕ) → j ≤ bm1.end - bm1.start → member bm1.bitmap j ≡ member bm2.bitmap j)
      → (m : ℕ) → test_generic_bitmap bm1 m ≡ test_generic_bitmap bm2 m
  members→tests h m = value bm1 m v1 ∙ same_value ∙ sym (value bm2 m v2)
    where
      same_value :
          (if outside bm1 m
            then 0
            else member bm1.bitmap (m - bm1.start) * 2 ^ ((m - bm1.start) % 8))
          ≡ (if outside bm2 m
              then 0
              else member bm2.bitmap (m - bm2.start) * 2 ^ ((m - bm2.start) % 8))
      same_value = ground (
        arith,
        es,
        ee,
        h (m - bm1.start),
        member_at bm2.bitmap (m - bm2.start) (m - bm1.start),
        power_at (m - bm2.start) (m - bm1.start),
        member bm1.bitmap (m - bm1.start) * 2 ^ ((m - bm1.start) % 8),
      )

  module _ (width : ℕ) (w : width ≡ bm1.end - bm1.start) where
    agree :
        same_bytes bm1.bitmap bm2.bitmap (width / 8) ≡ true
        → differs bm1 bm2 (width % 8 + 1) (bm1.end - width % 8) ≡ false
        → (m : ℕ) → test_generic_bitmap bm1 m ≡ test_generic_bitmap bm2 m
    agree s d = members→tests (λ j hj. elim (Bool-cases (ltb j (8 * (width / 8)))) [
      | inl e ↦
          (same_bytes_iff bm1.bitmap bm2.bitmap (width / 8) v1.bytes v2.bytes).0 s j (ground arith)
      | inr e ↦
          tests→members j (bm1.end - width % 8 + (j - 8 * (width / 8))) (ground (arith, v1.starts))
            (ground (arith, v1.starts))
            ((differs_iff bm1 bm2 (width % 8 + 1) (bm1.end - width % 8)).0 d (j - 8 * (width / 8))
              (ground arith))
    ])

    agreed :
        ((m : ℕ) → test_generic_bitmap bm1 m ≡ test_generic_bitmap bm2 m)
        → (same_bytes bm1.bitmap bm2.bitmap (width / 8) ≡ true)
          × (differs bm1 bm2 (width % 8 + 1) (bm1.end - width % 8) ≡ false)
    agreed t = (
      (same_bytes_iff bm1.bitmap bm2.bitmap (width / 8) v1.bytes v2.bytes).1 (λ j hj.
          tests→members j (bm1.start + j) refl (omega (arith, v1.starts)) (t (bm1.start + j))),
      (differs_iff bm1 bm2 (width % 8 + 1) (bm1.end - width % 8)).1
          (λ k hk. t (bm1.end - width % 8 + k)),
    )

-- For two valid bitmaps of one kind, whose end is not the last 32-bit number, and an error code that
-- is not 0, the comparison gives 0 exactly where they have the same limits and the same test results.
pub compare_iff :
    (bm1 bm2 : Bitmap) (neq : ℕ)
    → IsValid bm1
    → IsValid bm2
    → bm1.magic ≡ bm2.magic
    → bm1.end < 2 ^ 32 - 1
    → neq ≢ 0
    → (compare_generic_bitmap bm1.magic neq bm1 bm2 ≡ 0) ↔ (
        (bm1.start ≡ bm2.start)
        × (bm1.end ≡ bm2.end)
        × ((m : ℕ) → test_generic_bitmap bm1 m ≡ test_generic_bitmap bm2 m))
unfolding compare_generic_bitmap
compare_iff bm1 bm2 neq v1 v2 k last h = rw w (
    rw f (
      λ e.
          let es : bm1.start ≡ bm2.start = ground (arith, k, e) in
          let ee : bm1.end ≡ bm2.end = ground (arith, k, e) in
          (
            es,
            ee,
            agree bm1 bm2 v1 v2 es ee width refl (ground (arith, k, e)) (ground (arith, k, e)),
          ),
      λ (es, ee, t).
          let (s, d) = agreed bm1 bm2 v1 v2 es ee width refl t in ground (arith, k, es, ee, s, d),
    ))
  where
    width : ℕ
    width = bm1.end - bm1.start

    w : sub32 bm1.end bm1.start ≡ width
    w = omega (arith, v1.starts, v1.ends, v1.small)

    f : sub32 bm1.end (width % 8) ≡ bm1.end - width % 8
    f = omega (arith, v1.starts, v1.ends, v1.small)
