-- ===== src/Domain/Code/Sampling.antt =====
-- code.go: the draw ends, with the first eight accepted bytes, and every symbol is equally likely.
use youpass_share_service.Base.{
  Bytes, List, [], ap, arith, dec_lt, keep, keep-append, length, length-append, ltb, map, refl, suc,
  sym, take, zero, ℕ, ◌++◌, ◌<◌, ◌∙◌, ◌∷◌, ◌≡◌, ◌≤◌,
}
use youpass_share_service.Domain.Code.{
  Read, code_length, draw, drawn, fill, got, max_unbiased_byte, new_code, symbol,
}
use mathlib.Core.List.{append-nil, append_assoc, map-append}

-- The bytes that the sampling accepts.
abbrev pub accepted : Bytes → Bytes
accepted = keep (λ b. ltb b max_unbiased_byte)

-- What a run of successful reads delivers.
abbrev pub delivered : List Bytes → Bytes
delivered [] = []
delivered (b ∷ bs) = b ++ delivered bs

take_enough : (n : ℕ) (xs ys : Bytes) → n ≤ length xs → take n (xs ++ ys) ≡ take n xs
take_enough zero xs ys h = refl
take_enough (suc n) [] ys h = absurd (omega arith)
take_enough (suc n) (x ∷ xs) ys h = ap (◌∷◌ x) (take_enough n xs ys (omega arith))

take_all : (n : ℕ) (xs : Bytes) → length xs ≤ n → take n xs ≡ xs
take_all zero [] h = refl
take_all (suc n) [] h = refl
take_all zero (x ∷ xs) h = absurd (omega arith)
take_all (suc n) (x ∷ xs) h = ap (◌∷◌ x) (take_all n xs (omega arith))

take_exact : (xs ys : Bytes) → length xs ≡ code_length → take code_length (xs ++ ys) ≡ xs
take_exact xs ys h =
    take_enough code_length xs ys (omega arith) ∙ take_all code_length xs (omega arith)

-- One read adds its accepted symbols, and stops at eight.
fill_lem :
    (buf out : Bytes)
    → length out < code_length
    → fill buf out ≡ take code_length (out ++ map symbol (accepted buf))
unfolding fill
fill_lem [] out h = rw append-nil (sym (take_all code_length out (omega arith)))
fill_lem (b ∷ buf) out h = ground (
  arith,
  fill_lem buf out,
  fill_lem buf (out ++ symbol b ∷ []),
  length-append out (symbol b ∷ []),
  append_assoc out (symbol b ∷ []) (map symbol (accepted buf)),
  take_exact (out ++ symbol b ∷ []) (map symbol (accepted buf)),
)

length-take_enough : (n : ℕ) (xs : Bytes) → n ≤ length xs → length (take n xs) ≡ n
length-take_enough zero xs h = refl
length-take_enough (suc n) [] h = absurd (omega arith)
length-take_enough (suc n) (x ∷ xs) h = omega (arith, length-take_enough n xs)

draw_full :
    (reads : List Read) (out : Bytes) → length out ≡ code_length → draw reads out ≡ drawn out reads
unfolding draw
draw_full [] out h = ground arith
draw_full (r ∷ reads) out h = ground arith

draw_step :
    (b : Bytes) (reads : List Read) (out : Bytes)
    → length out < code_length
    → draw (got b ∷ reads) out ≡ draw reads (fill b out)
unfolding draw
draw_step b reads out h = ground arith

accepted_split :
    (out b d : Bytes)
    → out ++ map symbol (accepted (b ++ d))
      ≡ (out ++ map symbol (accepted b)) ++ map symbol (accepted d)
accepted_split out b d = simp (keep-append, map-append, append_assoc)

-- Whatever the reads hold before, enough accepted bytes end the draw.
draw-delivered :
    (bs : List Bytes) (out : Bytes)
    → length out < code_length
    → code_length ≤ length (out ++ map symbol (accepted (delivered bs)))
    → (rest : List Read) × (draw (map got bs) out
        ≡ drawn (take code_length (out ++ map symbol (accepted (delivered bs)))) rest)
draw-delivered [] out h k = absurd (omega (arith, ap length (append-nil out)))
draw-delivered (b ∷ bs) out h k =
    let a = out ++ map symbol (accepted b) in
    let later = map symbol (accepted (delivered bs)) in
    let split = accepted_split out b (delivered bs) in
    let step = draw_step b (map got bs) out h ∙ ap (draw (map got bs)) (fill_lem b out h) in
    elim (dec_lt (length a) code_length) [
      | yes more ↦
          let (rest, e) = draw-delivered bs a more (rw split at k) in
          (
            rest,
            step
                ∙ ap (draw (map got bs)) (take_all code_length a (omega arith))
                ∙ e
                ∙ ap (λ (c : Bytes). drawn (take code_length c) rest) (sym split),
          )
      | no full ↦
          let enough = length-take_enough code_length a (omega arith) in
          (
            map got bs,
            step
                ∙ draw_full (map got bs) (take code_length a) enough
                ∙ ap (λ (c : Bytes). drawn c (map got bs))
                    (sym (
                      ap (take code_length) split ∙ take_enough code_length a later (omega arith))),
          )
    ]

length-map-symbol : (xs : Bytes) → length (map symbol xs) ≡ length xs
length-map-symbol [] = refl
length-map-symbol (x ∷ xs) = ap suc (length-map-symbol xs)

-- Once crypto/rand has delivered eight bytes below 248, in any number of reads, `NewCode` ends,
-- and the code is the symbols of the first eight such bytes.
pub new_code_total :
    (bs : List Bytes)
    → code_length ≤ length (accepted (delivered bs))
    → (rest : List Read) × (new_code (map got bs)
        ≡ drawn (take code_length (map symbol (accepted (delivered bs)))) rest)
unfolding new_code
new_code_total bs h =
    draw-delivered bs [] (omega arith) (omega (arith, length-map-symbol (accepted (delivered bs))))
