-- ===== src/Icount/Entries.antt =====
-- source/icount.c: the list of entries as a map from inodes to counts.
use native.Mathlib.Decide.{ℕ_discrete}
use libext2fs.Prelude.{
  ℕ, zero, suc, ◌+◌, ◌-◌, ◌≤◌, ◌<◌, ◌≡◌, ◌≢◌, refl, List, [], ◌∷◌, ◌++◌, length, take, drop, set,
  ◌==◌, ltb, if◌then◌else◌, arith, ==_iff, ne→==, ap,
}
use libext2fs.Icount.{IcountEl, ino_at, count_at}

-- The count of the first entry of an inode, and 0 if there is none.
abbrev pub lookup : List IcountEl → ℕ → ℕ
lookup [] n = 0
lookup (e ∷ es) n = if e.ino == n then e.count else lookup es n

abbrev pub IsAscending : List IcountEl → Type 0
IsAscending list = (i j : ℕ) → i < j → j < length list → ino_at list i < ino_at list j

-- No entry is of the inode.
abbrev pub IsAbsent : List IcountEl → ℕ → Type 0
IsAbsent list n = (i : ℕ) → i < length list → ino_at list i ≢ n

tail-IsAscending : (e : IcountEl) (es : List IcountEl) → IsAscending (e ∷ es) → IsAscending es
tail-IsAscending e es asc i j ij hj = asc (suc i) (suc j) (omega arith) (omega arith)

pub lookup_absent : (list : List IcountEl) (n : ℕ) → IsAbsent list n → lookup list n ≡ 0
lookup_absent [] n not_in = refl
lookup_absent (e ∷ es) n not_in =
    rw (ne→== e.ino n (not_in 0 (omega arith)))
      (lookup_absent es n (λ i hi. not_in (suc i) (omega arith)))

head_ne :
    (e : IcountEl) (es : List IcountEl) (i : ℕ)
    → IsAscending (e ∷ es)
    → i < length es
    → e.ino ≢ ino_at es i
head_ne e es i asc hi same = absurd (omega (arith, asc 0 (suc i) (omega arith) (omega arith)))

pub lookup_at :
    (list : List IcountEl) (i : ℕ)
    → IsAscending list
    → i < length list
    → lookup list (ino_at list i) ≡ count_at list i
lookup_at [] i asc hi = absurd (omega arith)
lookup_at (e ∷ es) zero asc hi = rw ((==_iff e.ino e.ino).1 refl) refl
lookup_at (e ∷ es) (suc i) asc hi =
    rw (ne→== e.ino (ino_at es i) (head_ne e es i asc (omega arith)))
      (lookup_at es i (tail-IsAscending e es asc) (omega arith))

-- A new count for the entry at an index.
abbrev pub recount : List IcountEl → ℕ → ℕ → List IcountEl
recount list i c = set list i (record { ino = ino_at list i; count = c })

pub lookup-recount :
    (list : List IcountEl) (i c m : ℕ)
    → IsAscending list
    → i < length list
    → lookup (recount list i c) m ≡ (if ino_at list i == m then c else lookup list m)
lookup-recount [] i c m asc hi = absurd (omega arith)
lookup-recount (e ∷ es) zero c m asc hi = ground arith
lookup-recount (e ∷ es) (suc i) c m asc hi = ground (
  arith,
  lookup-recount es i c m (tail-IsAscending e es asc) (omega arith),
  head_ne e es i asc (omega arith),
)

pub ino_at-recount :
    (list : List IcountEl) (i c k : ℕ) → ino_at (recount list i c) k ≡ ino_at list k
ino_at-recount [] i c k = refl
ino_at-recount (e ∷ es) zero c zero = refl
ino_at-recount (e ∷ es) zero c (suc k) = refl
ino_at-recount (e ∷ es) (suc i) c zero = refl
ino_at-recount (e ∷ es) (suc i) c (suc k) = ino_at-recount es i c k

-- The list with an entry put in at an index.
abbrev pub inserted : List IcountEl → ℕ → IcountEl → List IcountEl
inserted list pos e = take pos list ++ (e ∷ drop pos list)

pub length-inserted :
    (list : List IcountEl) (pos : ℕ) (e : IcountEl)
    → pos ≤ length list
    → length (inserted list pos e) ≡ length list + 1
length-inserted list zero e h = omega arith
length-inserted [] (suc pos) e h = absurd (omega arith)
length-inserted (x ∷ xs) (suc pos) e h = omega (arith, length-inserted xs pos e (omega arith))

pred_suc : (k : ℕ) → suc k - 1 ≡ k
pred_suc k = omega arith

pub ino_at-inserted :
    (list : List IcountEl) (pos k : ℕ) (e : IcountEl)
    → pos ≤ length list
    → ino_at (inserted list pos e) k
      ≡ (if ltb k pos then ino_at list k else if k == pos then e.ino else ino_at list (k - 1))
ino_at-inserted list zero zero e h = refl
ino_at-inserted list zero (suc k) e h = rw (pred_suc k) (ground arith)
ino_at-inserted [] (suc pos) k e h = absurd (omega arith)
ino_at-inserted (x ∷ xs) (suc pos) zero e h = ground arith
ino_at-inserted (x ∷ xs) (suc pos) (suc k) e h =
    rw (pred_suc k) (shifted k (ino_at-inserted xs pos k e (omega arith)))
  where
    shifted :
        (k : ℕ)
        → ino_at (inserted xs pos e) k
          ≡ (if ltb k pos then ino_at xs k else if k == pos then e.ino else ino_at xs (k - 1))
        → ino_at (inserted xs pos e) k ≡ (
            if ltb (suc k) (suc pos)
            then ino_at xs k
            else if suc k == suc pos
            then e.ino
            else ino_at (x ∷ xs) k)
    shifted zero h = ground (arith, h)
    shifted (suc k) h = ground (arith, h, ap (λ (t : ℕ). ino_at xs t) (pred_suc k))

pub lookup-inserted :
    (list : List IcountEl) (pos n m : ℕ)
    → IsAbsent list n
    → lookup (inserted list pos (record { ino = n; count = 0 })) m ≡ lookup list m
lookup-inserted list zero n m not_in = elim (ℕ_discrete n m) [
  | yes e ↦ ground (arith, lookup_absent list m (λ i hi same. not_in i hi (omega arith)))
  | no ne ↦ rw (ne→== n m ne) refl
]
lookup-inserted [] (suc pos) n m not_in = ground arith
lookup-inserted (x ∷ xs) (suc pos) n m not_in =
    ap (λ (r : ℕ). if x.ino == m then x.count else r)
      (lookup-inserted xs pos n m (λ i hi. not_in (suc i) (omega arith)))

pub inserted-IsAscending :
    (list : List IcountEl) (pos n : ℕ)
    → pos ≤ length list
    → IsAscending list
    → ((i : ℕ) → i < pos → ino_at list i < n)
    → ((i : ℕ) → pos ≤ i → i < length list → n < ino_at list i)
    → IsAscending (inserted list pos (record { ino = n; count = 0 }))
inserted-IsAscending list pos n h asc below above a b ab hb = ground (
  arith,
  length-inserted list pos (record { ino = n; count = 0 }),
  ino_at-inserted list pos a (record { ino = n; count = 0 }),
  ino_at-inserted list pos b (record { ino = n; count = 0 }),
  below a,
  below b,
  above a,
  above (b - 1),
  asc a b,
  asc (a - 1) (b - 1),
  asc a (b - 1),
)
