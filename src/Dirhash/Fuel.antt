-- ===== src/Dirhash/Fuel.antt =====
-- source/dirhash.c: the loops over parts of a name end, and every result is even.
use libext2fs.Prelude.{
  ℕ, zero, suc, ◌+◌, ◌-◌, ◌*◌, ◌%◌, ◌≤◌, ◌≡◌, inl, inr, refl, List, [], ◌∷◌, length, drop, take,
  length-drop, length-take, length-replicate, Bool, Bool-cases, true, ◌==◌, arith,
}
use libext2fs.Dirhash.{Quad, chunks, fill, str2hashbuf}

-- The loop over parts of at least one word gives the same result with any fuel that is at least the
-- length of the name, so that the fuel never cuts it short.
pub chunks_fuel :
    (sign : Bool) (num : ℕ) (transform : Quad → List ℕ → Quad) (m n : ℕ) (name : List ℕ)
    (buf : Quad)
    → 1 ≤ num
    → length name ≤ m
    → length name ≤ n
    → chunks sign num transform m name buf ≡ chunks sign num transform n name buf
unfolding chunks
chunks_fuel sign num transform zero zero name buf h a b = refl
chunks_fuel sign num transform zero (suc n) name buf h a b =
    let e : (length name == 0) ≡ true = ground arith in rw e refl
chunks_fuel sign num transform (suc m) zero name buf h a b =
    let e : (length name == 0) ≡ true = ground arith in rw e refl
chunks_fuel sign num transform (suc m) (suc n) name buf h a b =
    elim (Bool-cases (length name == 0)) [
      | inl e ↦ rw e refl
      | inr e ↦ rw e (
          chunks_fuel sign num transform m n (drop (num * 4) name) _ h
            (ground (arith, length-drop (num * 4) name))
            (ground (arith, length-drop (num * 4) name)))
    ]

length-fill :
    (sign : Bool) (pad : ℕ) (bytes : List ℕ) (i val num : ℕ)
    → i % 4 + length bytes ≤ num * 4
    → length (fill sign pad bytes i val num) ≡ num
unfolding fill
length-fill sign pad [] i val num h = ground (arith, length-replicate {A = ℕ} (num - 1) pad)
length-fill sign pad (byte ∷ bytes) i val num h = elim (Bool-cases (i % 4 == 3)) [
  | inl e ↦ rw e (ground (arith, length-fill sign pad bytes (i + 1) pad (num - 1) (ground arith)))
  | inr e ↦ rw e (length-fill sign pad bytes (i + 1) _ num (ground arith))
]

-- The buffer gets all its words, so that the transforms read no further.
pub length-str2hashbuf :
    (sign : Bool) (msg : List ℕ) (num : ℕ) → length (str2hashbuf sign msg num) ≡ num
unfolding str2hashbuf
length-str2hashbuf sign msg num =
    length-fill sign _ (take (num * 4) msg) 0 _ num (omega (arith, length-take (num * 4) msg))
