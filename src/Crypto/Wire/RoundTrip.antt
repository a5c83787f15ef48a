-- ===== src/Crypto/Wire/RoundTrip.antt =====
-- base64urlEncode and base64urlDecode of packages/crypto/src/wire.ts, three bytes at a time.
use aesmsg.Prelude.{
  ℕ, ◌+◌, ◌-◌, ◌*◌, ◌/◌, ◌%◌, ◌^◌, ◌<◌, ◌≡◌, refl, ap, ◌∙◌, List, [], ◌∷◌, some, Text, arith, All,
  leb,
}
use aesmsg.Crypto.BigEndian.{IsByte}
use aesmsg.Crypto.Wire.{
  base64url_alphabet, encode_from, decode_from, cons_byte, base64url_encode, base64url_decode,
  bits_after,
}
use aesmsg.Crypto.Wire.Base64.{
  push_byte, push_symbol, symbol, index_of-symbol_at, push_byte_low, first_symbol, second_symbol,
  third_symbol, fourth_symbol, push_symbol_low, first_byte, second_byte, third_byte,
  cons_byte-false,
}

abbrev encode : ℕ → List ℕ → Text
encode v bs = encode_from 6 base64url_alphabet 0 v bs

encode_three :
    (v a b c : ℕ) (rest : List ℕ)
    → a < 256
    → b < 256
    → c < 256
    → encode v (a ∷ b ∷ c ∷ rest)
      ≡ symbol (a / 4)
        ∷ symbol (a % 4 * 16 + b / 16)
        ∷ symbol (b % 16 * 4 + c / 64)
        ∷ symbol (c % 64)
        ∷ encode (push_byte (push_byte (push_byte v a) b) c) rest
unfolding encode_from
encode_three v a b c rest ha hb hc =
    rw
      (
        ← first_symbol v a ha,
        ← second_symbol (push_byte v a) a b hb (push_byte_low v a ha),
        ← third_symbol (push_byte (push_byte v a) b) b c hc (push_byte_low (push_byte v a) b hb),
        ← fourth_symbol (push_byte (push_byte v a) b) c hc,
      )
      refl

decode_symbol :
    (bits u d : ℕ) (s : Text)
    → d < 64
    → decode_from bits u (symbol d ∷ s)
      ≡ cons_byte
          (leb 8 (bits + 6))
          (push_symbol u d / 2 ^ (bits + 6 - 8) % 256)
          (decode_from (bits_after (bits + 6)) (push_symbol u d) s)
unfolding decode_from
decode_symbol bits u d s h = rw (index_of-symbol_at d h, decode_from) refl

-- The first symbol of a group completes no byte.
decode_first :
    (u d : ℕ) (s : Text)
    → d < 64
    → decode_from 0 u (symbol d ∷ s) ≡ decode_from 6 (push_symbol u d) s
decode_first u d s h =
    decode_symbol 0 u d s h
    ∙ cons_byte-false (push_symbol u d / 1 % 256) (decode_from 6 (push_symbol u d) s)

decode_two :
    (u d e : ℕ) (s : Text)
    → d < 64
    → e < 64
    → decode_from 0 u (symbol d ∷ symbol e ∷ s)
      ≡ cons_byte (leb 8 12) (d * 4 + e / 16) (decode_from 4 (push_symbol (push_symbol u d) e) s)
decode_two u d e s hd he =
    decode_first u d (symbol e ∷ s) hd
    ∙ decode_symbol 6 (push_symbol u d) e s he
    ∙ ap (λ (x : ℕ). cons_byte (leb 8 12) x (decode_from 4 (push_symbol (push_symbol u d) e) s))
        (first_byte (push_symbol u d) d e he (push_symbol_low u d hd))

decode_third :
    (u d e : ℕ) (s : Text)
    → e < 64
    → u % 64 ≡ d
    → decode_from 4 u (symbol e ∷ s)
      ≡ cons_byte (leb 8 10) (d % 16 * 16 + e / 4) (decode_from 2 (push_symbol u e) s)
decode_third u d e s he k =
    decode_symbol 4 u e s he
    ∙ ap (λ (x : ℕ). cons_byte (leb 8 10) x (decode_from 2 (push_symbol u e) s))
        (second_byte u d e he k)

decode_fourth :
    (u d e : ℕ) (s : Text)
    → e < 64
    → u % 64 ≡ d
    → decode_from 2 u (symbol e ∷ s)
      ≡ cons_byte (leb 8 8) (d % 4 * 64 + e) (decode_from 0 (push_symbol u e) s)
decode_fourth u d e s he k =
    decode_symbol 2 u e s he
    ∙ ap (λ (x : ℕ). cons_byte (leb 8 8) x (decode_from 0 (push_symbol u e) s))
        (third_byte u d e he k)

decode_end : (bits u : ℕ) → decode_from bits u [] ≡ some []
unfolding decode_from
decode_end bits u = refl

last_of_one : (w a : ℕ) → w % 256 ≡ a → w * 16 % 2 ^ 32 % 64 ≡ a % 4 * 16
last_of_one w a h = omega (arith, h)

last_of_two : (w b : ℕ) → w % 256 ≡ b → w * 4 % 2 ^ 32 % 64 ≡ b % 16 * 4
last_of_two w b h = omega (arith, h)

two_bytes : {a b x y : ℕ} → x ≡ a → y ≡ b → some (x ∷ y ∷ []) ≡ some (a ∷ b ∷ [])
two_bytes e f = cc (e, f)

three_bytes :
    {a b c x y z : ℕ} (rest : List ℕ)
    → x ≡ a
    → y ≡ b
    → z ≡ c
    → some (x ∷ y ∷ z ∷ rest) ≡ some (a ∷ b ∷ c ∷ rest)
three_bytes rest e f g = cc (e, f, g)

encode_one : (v a : ℕ) → a < 256 → encode v (a ∷ []) ≡ symbol (a / 4) ∷ symbol (a % 4 * 16) ∷ []
unfolding encode_from
encode_one v a ha =
    let last : push_byte v a * 16 % 2 ^ 32 % 64 ≡ a % 4 * 16 =
      last_of_one (push_byte v a) a (push_byte_low v a ha) in
    rw (← first_symbol v a ha, ← last) refl

encode_two :
    (v a b : ℕ)
    → a < 256
    → b < 256
    → encode v (a ∷ b ∷ [])
      ≡ symbol (a / 4) ∷ symbol (a % 4 * 16 + b / 16) ∷ symbol (b % 16 * 4) ∷ []
unfolding encode_from
encode_two v a b ha hb =
    let w = push_byte v a in
    rw
      (
        ← first_symbol v a ha,
        ← second_symbol w a b hb (push_byte_low v a ha),
        ← last_of_two (push_byte w b) b (push_byte_low w b hb),
      )
      refl

-- What is encoded decodes to itself, from whatever both sides hold of earlier groups.
decode-encode_from :
    (bs : List ℕ) (u v : ℕ) → All IsByte bs → decode_from 0 u (encode v bs) ≡ some bs
unfolding encode_from
decode-encode_from [] u v h = decode_end 0 u
decode-encode_from (a ∷ []) u v (ha, _) =
    ap (decode_from 0 u) (encode_one v a ha)
    ∙ decode_two u (a / 4) (a % 4 * 16) [] (omega (arith, ha)) (omega (arith, ha))
    ∙ ap (cons_byte (leb 8 12) (a / 4 * 4 + a % 4 * 16 / 16)) (decode_end 4 _)
    ∙ ap (λ (x : ℕ). some (x ∷ [])) (omega (arith, ha))
decode-encode_from (a ∷ b ∷ []) u v (ha, (hb, _)) =
    let d = a / 4 in
    let e = a % 4 * 16 + b / 16 in
    let w = push_symbol (push_symbol u d) e in
    ap (decode_from 0 u) (encode_two v a b ha hb)
    ∙ decode_two u d e (symbol (b % 16 * 4) ∷ []) (omega (arith, ha)) (omega (arith, ha, hb))
    ∙ ap (cons_byte (leb 8 12) (d * 4 + e / 16)) (
        decode_third w e (b % 16 * 4) [] (omega (arith, hb))
          (push_symbol_low (push_symbol u d) e (omega (arith, ha, hb)))
        ∙ ap (cons_byte (leb 8 10) (e % 16 * 16 + b % 16 * 4 / 4)) (decode_end 2 _))
    ∙ two_bytes (omega (arith, ha, hb)) (omega (arith, ha, hb))
decode-encode_from (a ∷ b ∷ c ∷ rest) u v (ha, (hb, (hc, h))) =
    let d = a / 4 in
    let e = a % 4 * 16 + b / 16 in
    let f = b % 16 * 4 + c / 64 in
    let g = c % 64 in
    let w = push_symbol (push_symbol u d) e in
    let v' = push_byte (push_byte (push_byte v a) b) c in
    ap (decode_from 0 u) (encode_three v a b c rest ha hb hc)
    ∙ decode_two u d e (symbol f ∷ symbol g ∷ encode v' rest) (omega (arith, ha))
        (omega (arith, ha, hb))
    ∙ ap (cons_byte (leb 8 12) (d * 4 + e / 16)) (
        decode_third w e f (symbol g ∷ encode v' rest) (omega (arith, hb, hc))
          (push_symbol_low (push_symbol u d) e (omega (arith, ha, hb)))
        ∙ ap (cons_byte (leb 8 10) (e % 16 * 16 + f / 4)) (
            decode_fourth (push_symbol w f) f g (encode v' rest) (omega (arith, hc))
              (push_symbol_low w f (omega (arith, hb, hc)))
            ∙ ap (cons_byte (leb 8 8) (f % 4 * 64 + g))
                (decode-encode_from rest (push_symbol (push_symbol w f) g) v' h)))
    ∙ three_bytes rest (omega (arith, ha, hb)) (omega (arith, hb, hc)) (omega (arith, hb, hc))

-- Decoding the base64url text of any bytes gives them back.
pub base64url_decode-encode :
    (bs : List ℕ) → All IsByte bs → base64url_decode (base64url_encode bs) ≡ some bs
unfolding base64url_decode base64url_encode
base64url_decode-encode bs h = decode-encode_from bs 0 0 h
