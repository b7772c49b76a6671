-- ===== src/Dirhash/Signs.antt =====
-- source/dirhash.c: signed and unsigned characters, which differ from byte 128 on.
use libext2fs.Prelude.{
  ℕ, zero, suc, ◌+◌, ◌*◌, ◌<◌, ◌≡◌, refl, List, [], ◌∷◌, length, take, drop, true, false, Option,
  arith, lt→ltb,
}
use libext2fs.Dirhash.{
  Quad, char_word, hack_loop, dx_hack_hash, fill, str2hashbuf, chunks, half_md4_transform,
  tea_transform, dirhash,
}

-- Every byte of the name is below 128.
pub data IsAscii : List ℕ → Type 0 where
  ascii_nil : IsAscii []
  ascii_cons : {byte : ℕ} {bytes : List ℕ} → byte < 128 → IsAscii bytes → IsAscii (byte ∷ bytes)

take-IsAscii : (n : ℕ) {bytes : List ℕ} → IsAscii bytes → IsAscii (take n bytes)
take-IsAscii zero h = ascii_nil
take-IsAscii (suc n) ascii_nil = ascii_nil
take-IsAscii (suc n) (ascii_cons b h) = ascii_cons b (take-IsAscii n h)

drop-IsAscii : (n : ℕ) {bytes : List ℕ} → IsAscii bytes → IsAscii (drop n bytes)
drop-IsAscii zero h = h
drop-IsAscii (suc n) ascii_nil = ascii_nil
drop-IsAscii (suc n) (ascii_cons b h) = drop-IsAscii n h

same_char : (byte : ℕ) → byte < 128 → char_word true byte ≡ char_word false byte
unfolding char_word
same_char byte h = rw (lt→ltb byte 128 h) refl

same_hack :
    {bytes : List ℕ}
    → IsAscii bytes
    → (hash0 hash1 : ℕ) → hack_loop true bytes hash0 hash1 ≡ hack_loop false bytes hash0 hash1
unfolding hack_loop
same_hack ascii_nil hash0 hash1 = refl
same_hack (ascii_cons {byte} b h) hash0 hash1 = rw (same_char byte b) (same_hack h _ _)

same_fill :
    (pad : ℕ) {bytes : List ℕ}
    → IsAscii bytes
    → (i val num : ℕ) → fill true pad bytes i val num ≡ fill false pad bytes i val num
unfolding fill
same_fill pad ascii_nil i val num = refl
same_fill pad (ascii_cons {byte} b h) i val num =
    rw (same_char byte b) (rw (same_fill pad h _ _ _) refl)

same_words :
    {name : List ℕ} (num : ℕ)
    → IsAscii name
    → str2hashbuf true name num ≡ str2hashbuf false name num
unfolding str2hashbuf
same_words num h = same_fill _ (take-IsAscii (num * 4) h) 0 _ num

same_chunks :
    (num fuel : ℕ) (transform : Quad → List ℕ → Quad) {name : List ℕ}
    → IsAscii name
    → (buf : Quad)
    → chunks true num transform fuel name buf ≡ chunks false num transform fuel name buf
unfolding chunks
same_chunks num zero transform h buf = refl
same_chunks num (suc fuel) transform h buf =
    rw (same_words num h) (rw (same_chunks num fuel transform (drop-IsAscii (num * 4) h) _) refl)

-- A name of bytes below 128 has the same hash by the signed and the unsigned version of each of the
-- three hash functions, with every seed.
pub signs_agree :
    (version : ℕ) (name : List ℕ) (seed : Option Quad)
    → version < 3
    → IsAscii name
    → dirhash (version + 3) name seed ≡ dirhash version name seed
unfolding dirhash dx_hack_hash
signs_agree zero name seed l h = rw (same_hack h 0x12a3fe2d 0x37abe8f9) refl
signs_agree (suc zero) name seed l h = rw (same_chunks 8 (length name) half_md4_transform h _) refl
signs_agree (suc (suc zero)) name seed l h = rw (same_chunks 4 (length name) tea_transform h _) refl
signs_agree (suc (suc (suc version))) name seed l h = absurd (omega arith)
