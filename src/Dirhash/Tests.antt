-- ===== src/Dirhash/Tests.antt =====
-- Tests and witnesses for Dirhash.
use libext2fs.Prelude.{ℕ, ◌+◌, List, [], ◌∷◌, ◌≡◌, refl, arith, none, true, not, ◌==◌}
use libext2fs.Dirhash.{Quad, unsupported, dirhash, dx_hack_hash, hack_loop, char_word}
use libext2fs.Dirhash.Signs.{IsAscii, ascii_nil, ascii_cons, signs_agree}

-- "abc"
abbrev abc : List ℕ
abc = 97 ∷ 98 ∷ 99 ∷ []

abc-IsAscii : IsAscii abc
abc-IsAscii =
    ascii_cons (omega arith) (ascii_cons (omega arith) (ascii_cons (omega arith) ascii_nil))

-- A byte of 128 or more tells the signed and the unsigned version apart.
signs_differ : (dx_hack_hash true (200 ∷ []) == dx_hack_hash (not true) (200 ∷ [])) ≡ not true
unfolding dx_hack_hash hack_loop char_word
signs_differ = refl

no_such_version : dirhash 6 abc none ≡ unsupported
unfolding dirhash
no_such_version = refl

signs_agree_example : dirhash (2 + 3) abc none ≡ dirhash 2 abc none
signs_agree_example = signs_agree 2 abc none (omega arith) abc-IsAscii

abbrev seed : Quad
seed = record { a = 1; b = 2; c = 3; d = 4 }
