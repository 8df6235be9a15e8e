-- ===== src/Base/Sha256.antt =====
-- crypto/sha256 and encoding/hex: the digest of a text, on lists of bytes and 32-bit words.
use Prim.Native.Nat.{ℕ, zero, suc, ◌+◌, ◌-◌, ◌*◌, ◌/◌, ◌%◌, ◌^◌, bit_and, bit_xor}
use Prim.Native.Char.{code}
use Prim.Native.String as S
use Prim.Native.String.{◌++◌}
use mathlib.Core.Path.{◌≡◌, refl}
use mathlib.Core.List.{List, [], ◌∷◌, ◌++◌ as append}
use telemetry_operator.Base.Tests.{ltb, if◌then◌else◌}

-- The bytes of a character in UTF-8.
abbrev utf8 : ℕ → List ℕ
utf8 c =
    if ltb c 128
    then c ∷ []
    else if ltb c 2048
    then (192 + c / 64) ∷ (128 + c % 64) ∷ []
    else if ltb c 65536
    then (224 + c / 4096) ∷ (128 + c / 64 % 64) ∷ (128 + c % 64) ∷ []
    else (240 + c / 262144) ∷ (128 + c / 4096 % 64) ∷ (128 + c / 64 % 64) ∷ (128 + c % 64) ∷ []

unfoldable pub bytes : S.String → List ℕ
bytes S.[] = []
bytes (S.◌∷◌ c s) = append (utf8 (code c)) (bytes s)

abbrev word : ℕ → ℕ
word n = n % 2 ^ 32

-- The bits of a word moved to the right by n places, those that fall out put in on the left.
abbrev rotate : ℕ → ℕ → ℕ
rotate n w = word (w / 2 ^ n + w % 2 ^ n * 2 ^ (32 - n))

abbrev xor3 : ℕ → ℕ → ℕ → ℕ
xor3 a b c = bit_xor a (bit_xor b c)

-- The constants of the 64 rounds.
abbrev round_constants : List ℕ
round_constants =
    0x428a2f98 ∷ 0x71374491 ∷ 0xb5c0fbcf ∷ 0xe9b5dba5 ∷ 0x3956c25b ∷ 0x59f111f1 ∷ 0x923f82a4
    ∷ 0xab1c5ed5 ∷ 0xd807aa98 ∷ 0x12835b01 ∷ 0x243185be ∷ 0x550c7dc3 ∷ 0x72be5d74 ∷ 0x80deb1fe
    ∷ 0x9bdc06a7 ∷ 0xc19bf174 ∷ 0xe49b69c1 ∷ 0xefbe4786 ∷ 0x0fc19dc6 ∷ 0x240ca1cc ∷ 0x2de92c6f
    ∷ 0x4a7484aa ∷ 0x5cb0a9dc ∷ 0x76f988da ∷ 0x983e5152 ∷ 0xa831c66d ∷ 0xb00327c8 ∷ 0xbf597fc7
    ∷ 0xc6e00bf3 ∷ 0xd5a79147 ∷ 0x06ca6351 ∷ 0x14292967 ∷ 0x27b70a85 ∷ 0x2e1b2138 ∷ 0x4d2c6dfc
    ∷ 0x53380d13 ∷ 0x650a7354 ∷ 0x766a0abb ∷ 0x81c2c92e ∷ 0x92722c85 ∷ 0xa2bfe8a1 ∷ 0xa81a664b
    ∷ 0xc24b8b70 ∷ 0xc76c51a3 ∷ 0xd192e819 ∷ 0xd6990624 ∷ 0xf40e3585 ∷ 0x106aa070 ∷ 0x19a4c116
    ∷ 0x1e376c08 ∷ 0x2748774c ∷ 0x34b0bcb5 ∷ 0x391c0cb3 ∷ 0x4ed8aa4a ∷ 0x5b9cca4f ∷ 0x682e6ff3
    ∷ 0x748f82ee ∷ 0x78a5636f ∷ 0x84c87814 ∷ 0x8cc70208 ∷ 0x90befffa ∷ 0xa4506ceb ∷ 0xbef9a3f7
    ∷ 0xc67178f2 ∷ []

-- The eight words of the state.
record Words : Type 0 where
  a : ℕ
  b : ℕ
  c : ℕ
  d : ℕ
  e : ℕ
  f : ℕ
  g : ℕ
  h : ℕ

abbrev initial_words : Words
initial_words = record {
  a = 0x6a09e667;
  b = 0xbb67ae85;
  c = 0x3c6ef372;
  d = 0xa54ff53a;
  e = 0x510e527f;
  f = 0x9b05688c;
  g = 0x1f83d9ab;
  h = 0x5be0cd19;
}

-- One round, with its constant and its word of the message.
round : ℕ → ℕ → Words → Words
round k w s =
    let choice = bit_xor (bit_and s.e s.f) (bit_and (2 ^ 32 - 1 - s.e) s.g) in
    let t1 = s.h + xor3 (rotate 6 s.e) (rotate 11 s.e) (rotate 25 s.e) + choice + k + w in
    let majority = xor3 (bit_and s.a s.b) (bit_and s.a s.c) (bit_and s.b s.c) in
    let t2 = xor3 (rotate 2 s.a) (rotate 13 s.a) (rotate 22 s.a) + majority in
    record {
      a = word (t1 + t2);
      b = s.a;
      c = s.b;
      d = s.c;
      e = word (s.d + t1);
      f = s.e;
      g = s.f;
      h = s.g;
    }

-- The n-th element, or 0.
nth : List ℕ → ℕ → ℕ
nth [] n = 0
nth (x ∷ l) zero = x
nth (x ∷ l) (suc n) = nth l n

-- The next word of the message, from the sixteen before it (the latest last).
next_word : List ℕ → ℕ
unfolding nth
next_word ws =
    let u = nth ws 1 in
    let v = nth ws 14 in
    word (
      nth ws 0
      + xor3 (rotate 7 u) (rotate 18 u) (u / 2 ^ 3)
      + nth ws 9
      + xor3 (rotate 17 v) (rotate 19 v) (v / 2 ^ 10))

abbrev tail : List ℕ → List ℕ
tail [] = []
tail (x ∷ l) = l

-- The rounds for the constants that are left; `ws` are the next sixteen words.
rounds_from : List ℕ → List ℕ → Words → Words
unfolding round next_word
rounds_from [] ws s = s
rounds_from (k ∷ ks) ws s =
    rounds_from ks (append (tail ws) (next_word ws ∷ [])) (round k (nth ws 0) s)

abbrev add_words : Words → Words → Words
add_words s t = record {
  a = word (s.a + t.a);
  b = word (s.b + t.b);
  c = word (s.c + t.c);
  d = word (s.d + t.d);
  e = word (s.e + t.e);
  f = word (s.f + t.f);
  g = word (s.g + t.g);
  h = word (s.h + t.h);
}

-- The words of four bytes each.
words_of : List ℕ → List ℕ
words_of (p ∷ q ∷ r ∷ s ∷ rest) = (p * 2 ^ 24 + q * 2 ^ 16 + r * 2 ^ 8 + s) ∷ words_of rest
words_of rest = []

drop : ℕ → List ℕ → List ℕ
drop zero l = l
drop (suc n) [] = []
drop (suc n) (x ∷ l) = drop n l

-- The blocks of sixteen words, of which there are n.
blocks : ℕ → List ℕ → Words → Words
unfolding rounds_from drop
blocks zero ws s = s
blocks (suc n) ws s = blocks n (drop 16 ws) (add_words s (rounds_from round_constants ws s))

length : List ℕ → ℕ
length [] = 0
length (x ∷ l) = suc (length l)

zeros : ℕ → List ℕ
zeros zero = []
zeros (suc n) = 0 ∷ zeros n

-- The n lowest bytes of a number, the highest first.
big_endian : ℕ → ℕ → List ℕ
big_endian zero m = []
big_endian (suc n) m = append (big_endian n (m / 256)) (m % 256 ∷ [])

-- The message of n bytes, filled up to whole blocks of 64 bytes.
pad : ℕ → List ℕ → List ℕ
unfolding zeros big_endian
pad n bs = append bs (append (128 ∷ zeros ((119 - n % 64) % 64)) (big_endian 8 (n * 8)))

hex_word : ℕ → ℕ → S.String
hex_word zero w = ""
hex_word (suc n) w = hex_word n (w / 16) ++ S.slice "0123456789abcdef" (w % 16) (w % 16 + 1)

-- hex.EncodeToString of the digest
unfoldable pub sha256_hex : S.String → S.String
unfolding pad blocks words_of length hex_word bytes
sha256_hex text =
    let bs = bytes text in
    let n = length bs in
    let s = blocks ((n + 72) / 64) (words_of (pad n bs)) initial_words in
    hex_word 8 s.a
    ++ hex_word 8 s.b
    ++ hex_word 8 s.c
    ++ hex_word 8 s.d
    ++ hex_word 8 s.e
    ++ hex_word 8 s.f
    ++ hex_word 8 s.g
    ++ hex_word 8 s.h

sha256_hex_example :
    sha256_hex "abc" ≡ "ba7816bf8f01cfea414140de5dae2223b00361a396177a9cb410ff61f20015ad"
unfolding sha256_hex
sha256_hex_example = refl
