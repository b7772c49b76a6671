-- ===== src/Backups/Powers.antt =====
-- source/closefs.c: the test for powers, and the groups with a superblock.
use native.Mathlib.Nat.{
  pow-zero, pow-succ', mod-add-div, div-lt_self, mul-mod_right, mul-div_right, one-le-pow,
}
use libext2fs.Prelude.{
  ℕ, zero, suc, ◌*◌, ◌/◌, ◌%◌, ◌^◌, ◌≤◌, ◌<◌, ◌≡◌, ◌⊎◌, ◌↔◌, inl, inr, refl, sym, ap, ◌∙◌, true,
  false, ◌==◌, arith, Bool-cases, ==_iff,
}
use libext2fs.Fs.{Filsys, has_ro_compat, sparse_super}
use libext2fs.Backups.{test_loop, test_root, bg_has_super}

abbrev pub IsPower : ℕ → ℕ → Type 0
IsPower b n = (k : ℕ) × (n ≡ b ^ k)

positive_quotient : (a b : ℕ) → 2 ≤ b → 1 ≤ a → a % b ≡ 0 → 1 ≤ a / b
positive_quotient a b hb ha e = elim (Bool-cases (a / b == 0)) [
  | inl z ↦
      let q : a / b ≡ 0 = ground arith in
      let m : b * (a / b) ≡ b * 0 = ap (λ (t : ℕ). b * t) q in omega (arith, mod-add-div a b, m)
  | inr z ↦ ground arith
]

test_loop→power : (fuel a b : ℕ) → 2 ≤ b → 1 ≤ a → test_loop fuel a b ≡ true → IsPower b a
unfolding test_loop
test_loop→power zero a b hb ha h = absurd (ground arith)
test_loop→power (suc fuel) a b hb ha h = elim (Bool-cases (a == 1)) [
  | inl e ↦ (0, (==_iff a 1).0 e ∙ sym (pow-zero b))
  | inr e ↦
      let d : a % b ≡ 0 = ground arith in
      let (k, f) =
        test_loop→power fuel (a / b) b hb (positive_quotient a b hb ha d) (ground arith) in
      (
        suc k,
        sym (pow-succ' b k ∙ ap (λ (t : ℕ). b * t) (sym f) ∙ omega (arith, mod-add-div a b, d)),
      )
]

power→test_loop : (fuel a b k : ℕ) → 2 ≤ b → a ≤ fuel → a ≡ b ^ k → test_loop fuel a b ≡ true
unfolding test_loop
power→test_loop zero a b k hb hf e = absurd (omega (arith, e, one-le-pow k b (omega arith)))
power→test_loop (suc fuel) a b zero hb hf e =
    let f : (a == 1) ≡ true = (==_iff a 1).1 (e ∙ pow-zero b) in rw f refl
power→test_loop (suc fuel) a b (suc k) hb hf e =
    let p : a ≡ b * b ^ k = e ∙ pow-succ' b k in
    let positive : 1 ≤ a = omega (arith, e, one-le-pow (suc k) b (omega arith)) in
    let d : a % b ≡ 0 = rw p (mul-mod_right b (b ^ k)) in
    let q : a / b ≡ b ^ k = rw p (mul-div_right (b ^ k) (omega arith)) in
    let less : a / b < a = div-lt_self positive (omega arith) in
    ground (arith, d, power→test_loop fuel (a / b) b k hb (omega arith) q)

-- For a base of at least 2, the test succeeds exactly at 0 and at the powers of the base.
pub test_root_iff : (a b : ℕ) → 2 ≤ b → (test_root a b ≡ true) ↔ ((a ≡ 0) ⊎ IsPower b a)
unfolding test_root
test_root_iff a b hb = (
  λ h. elim (Bool-cases (a == 0)) [
    | inl e ↦ inl (ground arith)
    | inr e ↦ inr (test_loop→power a a b hb (ground arith) (ground (arith, h)))
  ],
  λ h. elim h [
    | inl e ↦ ground (arith, e)
    | inr (k, e) ↦ ground (arith, power→test_loop a a b k hb (omega arith) e)
  ],
)

root_cases : {A : Type 0} (a b : ℕ) → 2 ≤ b → test_root a b ≡ true → (IsPower b a → A) → (a ≡ 0) ⊎ A
root_cases a b hb h f = elim ((test_root_iff a b hb).0 h) [ inl z ↦ inl z | inr p ↦ inr (f p) ]

-- With the SPARSE_SUPER feature the groups with a superblock are 0 and the powers of 3, 5 and 7;
-- without it they are all groups.
pub bg_has_super_iff :
    (fs : Filsys) (group : ℕ)
    → (bg_has_super fs group ≡ true) ↔ (
        (has_ro_compat fs.super sparse_super ≡ false)
        ⊎ ((group ≡ 0) ⊎ (IsPower 3 group ⊎ (IsPower 5 group ⊎ IsPower 7 group))))
unfolding bg_has_super
bg_has_super_iff fs group = (
  forward,
  λ h. elim h [
    | inl e ↦ rw e refl
    | inr (inl z) ↦ rooted 3 (omega arith) (inl z) (λ t. ground (arith, t))
    | inr (inr (inl p)) ↦ rooted 3 (omega arith) (inr p) (λ t. ground (arith, t))
    | inr (inr (inr (inl p))) ↦ rooted 5 (omega arith) (inr p) (λ t. ground (arith, t))
    | inr (inr (inr (inr p))) ↦ rooted 7 (omega arith) (inr p) (λ t. ground (arith, t))
  ],
)
  where
    rooted :
        (b : ℕ)
        → 2 ≤ b
        → (group ≡ 0) ⊎ IsPower b group
        → (test_root group b ≡ true → bg_has_super fs group ≡ true)
        → bg_has_super fs group ≡ true
    rooted b hb h f = f ((test_root_iff group b hb).1 h)

    forward :
        bg_has_super fs group ≡ true
        → (has_ro_compat fs.super sparse_super ≡ false)
          ⊎ ((group ≡ 0) ⊎ (IsPower 3 group ⊎ (IsPower 5 group ⊎ IsPower 7 group)))
    forward h = elim (Bool-cases (has_ro_compat fs.super sparse_super)) [
      | inr e ↦ inl e
      | inl e ↦ inr (elim (Bool-cases (test_root group 3)) [
        | inl t ↦ root_cases group 3 (omega arith) t (λ p. inl p)
        | inr t ↦ elim (Bool-cases (test_root group 5)) [
          | inl u ↦ root_cases group 5 (omega arith) u (λ p. inr (inl p))
          | inr u ↦ root_cases group 7 (omega arith) (ground (arith, h, e, t, u)) (λ p. inr (inr p))
        ]
      ])
    ]
