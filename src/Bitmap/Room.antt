-- ===== src/Bitmap/Room.antt =====
-- source/gen_bitmap.c: the arrays that the resizing of a bitmap goes through.
use libext2fs.Prelude.{
  ℕ, zero, suc, ◌+◌, ◌-◌, ◌*◌, ◌/◌, ◌^◌, ◌≤◌, ◌<◌, ◌≡◌, inl, inr, refl, ◌∙◌, List, ◌++◌, length,
  take, replicate, length-append, length-take, length-replicate, get_or-replicate,
  get_or-append_left, get_or-append_right, get_or-take, get_or-outside, true, if◌then◌else◌, ltb,
  leb, ◌&&◌, arith, Bool-cases, sub32,
}
use libext2fs.Bitops.{byte, clear_bit}
use libext2fs.Bitops.Laws.{member, IsBytes, member-clear_bit, clear_bit-IsBytes, length-clear_bit}
use libext2fs.Bitmap.{clear_down, wipe}

pub member-same_byte :
    (b1 b2 : List ℕ) (j : ℕ) → byte b1 (j / 8) ≡ byte b2 (j / 8) → member b1 j ≡ member b2 j
unfolding member
member-same_byte b1 b2 j e = rw e refl

pub length-clear_down :
    (n bitno start : ℕ) (bytes : List ℕ) → length (clear_down n bitno start bytes) ≡ length bytes
unfolding clear_down
length-clear_down zero bitno start bytes = refl
length-clear_down (suc n) bitno start bytes =
    length-clear_down n (bitno - 1) start _ ∙ length-clear_bit (sub32 bitno start) bytes

pub clear_down-IsBytes :
    (n bitno start : ℕ) (bytes : List ℕ) → IsBytes bytes → IsBytes (clear_down n bitno start bytes)
unfolding clear_down
clear_down-IsBytes zero bitno start bytes h = h
clear_down-IsBytes (suc n) bitno start bytes h =
    clear_down-IsBytes n (bitno - 1) start _ (clear_bit-IsBytes (sub32 bitno start) bytes h)

-- The loop clears the last `n` numbers up to `bitno`.
pub member-clear_down :
    (n bitno start : ℕ) (bytes : List ℕ) (j : ℕ)
    → n ≤ bitno
    → start ≤ bitno - n + 1
    → bitno < 2 ^ 32
    → bitno - start < 8 * length bytes
    → member (clear_down n bitno start bytes) j
      ≡ (if ltb (bitno - n) (start + j) && leb (start + j) bitno then 0 else member bytes j)
unfolding clear_down
member-clear_down zero bitno start bytes j a b c d = ground arith
member-clear_down (suc n) bitno start bytes j a b c d =
    let e : sub32 bitno start ≡ bitno - start = omega arith in
    rw e (
      ground (
        arith,
        member-clear_down n (bitno - 1) start (clear_bit (bitno - start) bytes).1 j (omega arith)
            (omega arith) (omega arith) (omega (arith, length-clear_bit (bitno - start) bytes)),
        member-clear_bit (bitno - start) bytes j (omega arith),
      ))

-- What the reallocation and the wiping leave: the old bytes, then zeros.
pub byte-wipe :
    (size new_size : ℕ) (bytes fresh : List ℕ) (i : ℕ)
    → size ≤ length bytes
    → new_size ≤ length bytes + length fresh
    → i < new_size
    → byte (wipe size new_size (take new_size (bytes ++ fresh))) i
      ≡ (if ltb i size then byte bytes i else 0)
unfolding wipe
byte-wipe size new_size bytes fresh i a b h = elim (Bool-cases (ltb size new_size)) [
  | inl e ↦ rw e (elim (Bool-cases (ltb i size)) [
    | inl f ↦ rw f (
        get_or-append_left (take size taken) (replicate (new_size - size) 0) i 0
          (ground (arith, front))
        ∙ get_or-take size taken i 0 (ground arith)
        ∙ kept (ground arith))
    | inr f ↦ rw f (
        let q : i ≡ length (take size taken) + (i - size) = ground (arith, front) in
        rw q (
          get_or-append_right (take size taken) (replicate (new_size - size) 0) (i - size) 0
          ∙ get_or-replicate (new_size - size) (i - size) 0))
  ])
  | inr e ↦ rw e (let f : ltb i size ≡ true = ground arith in rw f (kept (ground arith)))
]
  where
    taken : List ℕ
    taken = take new_size (bytes ++ fresh)

    kept : i < length bytes → byte taken i ≡ byte bytes i
    kept l = get_or-take new_size (bytes ++ fresh) i 0 h ∙ get_or-append_left bytes fresh i 0 l

    front : size < new_size → length (take size taken) ≡ size
    front l = omega (
      arith,
      length-take size taken,
      length-take new_size (bytes ++ fresh),
      length-append bytes fresh,
    )

pub length-wipe :
    (size new_size : ℕ) (bytes fresh : List ℕ)
    → size ≤ length bytes
    → new_size ≤ length bytes + length fresh
    → length (wipe size new_size (take new_size (bytes ++ fresh))) ≡ new_size
unfolding wipe
length-wipe size new_size bytes fresh a b = elim (Bool-cases (ltb size new_size)) [
  | inl e ↦ rw e (
      ground (
        arith,
        length-append (take size (take new_size (bytes ++ fresh))) (replicate (new_size - size) 0),
        length-replicate {A = ℕ} (new_size - size) 0,
        length-take size (take new_size (bytes ++ fresh)),
        length-take new_size (bytes ++ fresh),
        length-append bytes fresh,
      ))
  | inr e ↦ rw e (ground (arith, length-take new_size (bytes ++ fresh), length-append bytes fresh))
]

pub wipe-IsBytes :
    (size new_size : ℕ) (bytes fresh : List ℕ)
    → size ≤ length bytes
    → new_size ≤ length bytes + length fresh
    → IsBytes bytes
    → IsBytes (wipe size new_size (take new_size (bytes ++ fresh)))
wipe-IsBytes size new_size bytes fresh a b h i = elim (Bool-cases (ltb i new_size)) [
  | inl e ↦ ground (arith, byte-wipe size new_size bytes fresh i a b, h i)
  | inr e ↦ ground (
    arith,
    get_or-outside (wipe size new_size (take new_size (bytes ++ fresh))) i 0
        (ground (arith, length-wipe size new_size bytes fresh a b)),
  )
]
